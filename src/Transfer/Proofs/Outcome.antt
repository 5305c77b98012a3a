-- ===== src/Transfer/Proofs/Outcome.antt =====
-- What the verdict of a transfer says of the local file.
use ii_server_host.Prelude.{
  ltb, leb, Option-cases, ◌≡◌, refl, inl, inr, true, false, ◌&&◌, some, arith,
}
use ii_server_host.Prelude.Text.{Bytes, text, eq, is_empty}
use ii_server_host.Transfer.Validate.{TransferRequest, uses_http}
use ii_server_host.Transfer.Callbacks.{Io, calls}
use ii_server_host.Transfer.Perform.{
  CurlCode, curl_ok, filesize_exceeded, timed_out, aborted, failed_init, other_code, TransferResult,
  Opening, unopened, beside, in_place, Run, output, is_in_place, lower, read_all, failed, start_io,
  final_code, is_code_ok, is_filesize, is_timeout, checked_upload, prepare, verdict, conclude,
  transfer, writes_through, perform,
}

pub record IsSound (hash : Bytes → Bytes) (r : TransferRequest) (run : Run) (io : Io) : Type 0 where
  pub running : io.cancelled ≡ false
  pub clean : is_empty io.error ≡ true
  pub code : final_code run io ≡ curl_ok
  pub matches :
      is_empty r.expected_sha256 ≡ false → eq (hash io.contents) (lower r.expected_sha256) ≡ true
  pub direct :
      uses_http r.url.scheme ≡ true → (leb 300 run.response && ltb run.response 400) ≡ false

ok_code :
    (c : CurlCode)
    → is_filesize c ≡ false
    → is_timeout c ≡ false
    → is_code_ok c ≡ true
    → c ≡ curl_ok
ok_code curl_ok _ _ _ = refl
ok_code filesize_exceeded _ _ e = cc
ok_code timed_out _ _ e = cc
ok_code aborted _ _ e = cc
ok_code failed_init _ _ e = cc
ok_code other_code _ _ e = cc

-- No error code of the verdict is empty.
verdict_codes :
    (is_empty (text "cancelled") ≡ false)
    × (is_empty (text "size_limit_exceeded") ≡ false)
    × (is_empty (text "timeout") ≡ false)
    × (is_empty (text "transfer_failed") ≡ false)
    × (is_empty (text "redirect_requires_new_request") ≡ false)
    × (is_empty (text "checksum_mismatch") ≡ false)
    × (is_empty (text "local_commit_failed") ≡ false)
unfolding text
verdict_codes = (refl, refl, refl, refl, refl, refl, refl)

-- Without the fallback the output is never the local file itself.
not-is_in_place : (o : Opening output) → is_in_place o ≡ false
not-is_in_place unopened = refl
not-is_in_place beside = refl
not-is_in_place (in_place e) = absurd (cc e)

module _ (hash : Bytes → Bytes) (r : TransferRequest) (run : Run) where
  failed_keeps_verdict :
      (io : Io) → is_empty (verdict hash r run io).0 ≡ false → (verdict hash r run io).1 ≡ false
  unfolding verdict
  failed_keeps_verdict io e = ground (arith, e)

  verdict-IsSound : (io : Io) → is_empty (verdict hash r run io).0 ≡ true → IsSound hash r run io
  unfolding verdict
  verdict-IsSound io e = ground (arith, e, ok_code (final_code run io), verdict_codes)

  prepared_fails : (result : TransferResult) → prepare hash r run ≡ some result → result.ok ≡ false
  unfolding prepare failed checked_upload
  prepared_fails result e = elim (Option-cases (read_all run.input_chunks)) [
    | inl n ↦ ground (arith, e, n)
    | inr (c, n) ↦ ground (arith, e, n)
  ]

  beside_only : writes_through hash r run ≡ false
  beside_only = ground (arith, not-is_in_place (run.opening output))

  -- A download that fails, in whichever way, does not replace the local file.
  pub failed_keeps_file : (perform hash r run).0.ok ≡ false → (perform hash r run).1 ≡ false
  unfolding perform transfer conclude
  failed_keeps_file e = elim (Option-cases (prepare hash r run)) [
    | inl n ↦
        ground (arith, e, n, beside_only, failed_keeps_verdict (calls run.callbacks (start_io r)))
    | inr (result, n) ↦ ground (arith, e, n, beside_only)
  ]

  -- A transfer that reports success was not cancelled, left no error, ended with the code for
  -- success, matches the expected checksum if there is one, and over HTTP was no redirect.
  pub ok_transfer-IsSound :
      (perform hash r run).0.ok ≡ true → IsSound hash r run (calls run.callbacks (start_io r))
  unfolding perform transfer conclude failed
  ok_transfer-IsSound e = elim (Option-cases (prepare hash r run)) [
    | inl n ↦ ground (arith, e, n, verdict-IsSound (calls run.callbacks (start_io r)))
    | inr (result, n) ↦ ground (arith, e, n, prepared_fails result)
  ]
