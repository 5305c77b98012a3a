-- ===== src/Storage/Proofs/Children.antt =====
-- What the children of a file server may see.
use ii_server_host.Prelude.Text.{Text, is_empty}
use ii_server_host.Protocol.{Address}
use ii_server_host.Storage.Backend.{Files, BackendOptions}
use ii_server_host.Storage.Server.{FileServerOptions, server_spec, validate_server}
use ii_server_host.Storage.Serving.{
  ServerEffect, launches, terminates, FileServer, launch, start_server, process_started,
  process_finished, process_failed_to_start, stop_server,
}
use ii_server_host.Storage.Proofs.Confined.{IsConfined, launched-IsConfined}
use ii_server_host.Storage.Proofs.Serving.{Step, starts, begins, ends, fails, stops}
use ii_server_host.Prelude.{if_rule, Bool, not, Option, List, [], ◌∷◌, ◌++◌}

-- The environment of each child that was launched
unfoldable pub AllConfined : BackendOptions → List ServerEffect → Type 0
AllConfined backend [] = Unit
AllConfined backend (launches program args env ∷ es) =
    IsConfined backend env × AllConfined backend es
AllConfined backend (terminates ∷ es) = AllConfined backend es

AllConfined-append :
    (backend : BackendOptions) (es fs : List ServerEffect)
    → AllConfined backend es
    → AllConfined backend fs
    → AllConfined backend (es ++ fs)
unfolding AllConfined
AllConfined-append backend [] fs a b = b
AllConfined-append backend (launches program args env ∷ es) fs a b =
    (a.0, AllConfined-append backend es fs a.1 b)
AllConfined-append backend (terminates ∷ es) fs a b = AllConfined-append backend es fs a b

pub record IsContained (d : FileServer) : Type 0 where
  pub confined : AllConfined d.backend d.effects

start-IsContained :
    (files : Files) (parse_address : Text → Option Address) (o : FileServerOptions) (d : FileServer)
    → IsContained d
    → IsContained (start_server files parse_address o d).1
unfolding start_server AllConfined
start-IsContained files parse_address o d v =
    if_rule (λ (x : Bool × FileServer). IsContained x.1) d.process
      (λ _. record { confined = v.confined })
      (λ _.
        if_rule (λ (x : Bool × FileServer). IsContained x.1)
          (not (is_empty (validate_server files parse_address d.backend o)))
          (λ _. record { confined = v.confined })
          (λ _. record {
            confined =
                AllConfined-append d.backend d.effects
                  (launch files o (server_spec o.protocol) d.backend ∷ []) v.confined
                  (launched-IsConfined files o (server_spec o.protocol) d.backend, tt);
          }))

-- Each step of a file server keeps this: the environment of every child that it has launched has
-- only the variables that are inherited or set for every child and those for the login, and its
-- directories, the home directory among them, are the runtime directory, whatever the environment
-- of the system says.
pub step-IsContained :
    (files : Files) (parse_address : Text → Option Address) {d d' : FileServer}
    → Step files parse_address d d'
    → IsContained d
    → IsContained d'
unfolding process_started process_finished process_failed_to_start stop_server AllConfined
step-IsContained files parse_address (starts {d} o) v = start-IsContained files parse_address o d v
step-IsContained files parse_address (begins {d} p) v = record { confined = v.confined }
step-IsContained files parse_address (ends {d} p) v =
    if_rule IsContained d.stopping (λ _. record { confined = v.confined })
      (λ _. record { confined = v.confined })
step-IsContained files parse_address (fails {d} p) v = record { confined = v.confined }
step-IsContained files parse_address (stops {d}) v =
    if_rule IsContained d.process
      (λ _. record {
        confined = AllConfined-append d.backend d.effects (terminates ∷ []) v.confined tt;
      })
      (λ _. v)
