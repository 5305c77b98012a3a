-- ===== src/Storage/Proofs/Serving.antt =====
-- A file server has one child at a time, and reports the end of each once.
use ii_server_host.Prelude.{
  if_rule, ℕ, ◌+◌, ◌≡◌, ap, Bool, true, false, not, Option, List, [], ◌∷◌, ◌++◌, arith,
}
use ii_server_host.Prelude.Text.{Text, text, is_empty}
use ii_server_host.Protocol.{Address}
use ii_server_host.Storage.Backend.{Files}
use ii_server_host.Storage.Server.{FileServerOptions, server_spec, validate_server}
use ii_server_host.Storage.Serving.{
  ServerSignal, started, stopped, failed, ServerEffect, launches, terminates, FileServer, launch,
  start_server, process_started, process_finished, process_failed_to_start, stop_server,
}

unfoldable pub launched : List ServerEffect → ℕ
launched [] = 0
launched (launches program args env ∷ es) = launched es + 1
launched (terminates ∷ es) = launched es

unfoldable pub reported : List ServerSignal → ℕ
reported [] = 0
reported (stopped ∷ ss) = reported ss + 1
reported (started ∷ ss) = reported ss
reported (failed code ∷ ss) = reported ss

launched-append : (es fs : List ServerEffect) → launched (es ++ fs) ≡ launched es + launched fs
unfolding launched
launched-append [] fs = omega arith
launched-append (launches program args env ∷ es) fs = omega (arith, launched-append es fs)
launched-append (terminates ∷ es) fs = omega (arith, launched-append es fs)

reported-append : (ss ts : List ServerSignal) → reported (ss ++ ts) ≡ reported ss + reported ts
unfolding reported
reported-append [] ts = omega arith
reported-append (stopped ∷ ss) ts = omega (arith, reported-append ss ts)
reported-append (started ∷ ss) ts = omega (arith, reported-append ss ts)
reported-append (failed code ∷ ss) ts = omega (arith, reported-append ss ts)

abbrev pub one_if : Bool → ℕ
one_if true = 1
one_if false = 0

-- Each child that was launched has been reported as stopped, but for the one that there is.
pub record IsPaired (d : FileServer) : Type 0 where
  pub paired : launched d.effects ≡ reported d.signals + one_if d.process

-- The signals of a process come while there is one.
pub data Step (files : Files) (parse_address : Text → Option Address)
    : FileServer → FileServer → Type 0 where
  starts :
      {d : FileServer} (o : FileServerOptions)
      → Step files parse_address d (start_server files parse_address o d).1
  begins : {d : FileServer} → d.process ≡ true → Step files parse_address d (process_started d)
  ends : {d : FileServer} → d.process ≡ true → Step files parse_address d (process_finished d)
  fails :
      {d : FileServer} → d.process ≡ true → Step files parse_address d (process_failed_to_start d)
  stops : {d : FileServer} → Step files parse_address d (stop_server d)

start-IsPaired :
    (files : Files) (parse_address : Text → Option Address) (o : FileServerOptions) (d : FileServer)
    → IsPaired d
    → IsPaired (start_server files parse_address o d).1
unfolding start_server launched
start-IsPaired files parse_address o d v =
    if_rule (λ (x : Bool × FileServer). IsPaired x.1) d.process (λ _. record { paired = v.paired })
      (λ p.
        if_rule (λ (x : Bool × FileServer). IsPaired x.1)
          (not (is_empty (validate_server files parse_address d.backend o)))
          (λ _. record { paired = v.paired })
          (λ _. record {
            paired = omega (
              arith,
              v.paired,
              ap one_if p,
              launched-append d.effects (launch files o (server_spec o.protocol) d.backend ∷ []),
            );
          }))

-- Each step of a file server keeps this: the children that were launched are as many as those
-- reported as stopped, and one more while there is a child. A child signals only while there is
-- one.
pub step-IsPaired :
    (files : Files) (parse_address : Text → Option Address) {d d' : FileServer}
    → Step files parse_address d d'
    → IsPaired d
    → IsPaired d'
unfolding process_started process_finished process_failed_to_start stop_server launched reported
step-IsPaired files parse_address (starts {d} o) v = start-IsPaired files parse_address o d v
step-IsPaired files parse_address (begins {d} p) v =
    ground (arith, p, v.paired, reported-append d.signals (started ∷ []))
step-IsPaired files parse_address (ends {d} p) v = ground (
  arith,
  p,
  v.paired,
  reported-append d.signals (stopped ∷ []),
  reported-append d.signals (failed (text "server_exited") ∷ stopped ∷ []),
)
step-IsPaired files parse_address (fails {d} p) v = ground (
  arith,
  p,
  v.paired,
  reported-append d.signals (failed (text "backend_start_failed") ∷ stopped ∷ []),
)
step-IsPaired files parse_address (stops {d}) v =
    ground (arith, v.paired, launched-append d.effects (terminates ∷ []))
