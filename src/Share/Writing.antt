-- ===== src/Share/Writing.antt =====
-- A write is published whole or not at all.
use ii_server_host.Prelude.Patterns.{split_at}
use ii_server_host.Json.{Object, to_str, value}
use ii_server_host.Prelude.{
  ◌==◌, ==_iff, Bool-cases, Option-cases, length, take, ℕ, ◌≡◌, refl, ap, inl, inr, Bool, true,
  false, ◌||◌, some, List, [], ◌∷◌, arith,
}
use ii_server_host.Prelude.Text.{Text, Bytes, text, eq, is_empty, to_latin1}
use ii_server_host.Share.{Disk, resolve}
use ii_server_host.Share.Handle.{last_part, parent_of, write_loop, store, write_file, handle}

take-length {ℓ} : {A : Type ℓ} (xs : List A) → take (length xs) xs ≡ xs
take-length [] = refl
take-length (x ∷ xs) = ap (λ ys. x ∷ ys) (take-length xs)

take_at : {A : Type 0} (n : ℕ) (xs : List A) → n ≡ length xs → take n xs ≡ xs
take_at n xs e = rw e (take-length xs)

store_whole :
    (disk : Disk) (parent name : Text) (bytes b : Bytes)
    → (store disk parent name bytes).published ≡ some b
    → bytes ≡ b
unfolding store
store_whole disk parent name bytes b e =
    let written = write_loop (length bytes) 0 (disk.write_some bytes) in
    elim (Bool-cases (written == length bytes)) [
      | inl w ↦ ground (arith, e, w, take_at written bytes ((==_iff written (length bytes)).0 w))
      | inr w ↦ ground (arith, e, w)
    ]

write_file_whole :
    (disk : Disk) (path : Text) (only_directory : Bool) (request : Object) (b : Bytes)
    → (write_file disk path only_directory request).published ≡ some b
    → (disk.from_base64 (to_latin1 (to_str (value (text "data") request))) ≡ some b)
      × (only_directory ≡ false)
unfolding write_file
write_file_whole disk path only_directory request b e =
    elim (Option-cases (disk.from_base64 (to_latin1 (to_str (value (text "data") request))))) [
      | inl n ↦ ground (arith, e, n)
      | inr (c, n) ↦ ground (
        arith,
        e,
        n,
        store_whole disk (parent_of (split_at b'/' path)) (last_part (split_at b'/' path)) c b,
      )
    ]

-- Contents that a request to a share publishes under a name are the whole of the decoded data, and
-- the path was resolved inside the share.
pub handle_publishes_whole :
    (disk : Disk) (root : Text) (request : Object) (b : Bytes)
    → (handle disk root request).published ≡ some b
    → (disk.from_base64 (to_latin1 (to_str (value (text "data") request))) ≡ some b)
      × ((eq (to_str (value (text "op") request)) (text "mkdir") ≡ false)
          × (is_empty (resolve disk root (to_str (value (text "path") request)) true) ≡ false))
unfolding handle
handle_publishes_whole disk root request b e =
    let op = to_str (value (text "op") request) in
    let path = to_str (value (text "path") request) in
    elim (Bool-cases (eq op (text "write") || eq op (text "mkdir"))) [
      | inl c ↦ ground (arith, e, c, write_file_whole disk path (eq op (text "mkdir")) request b)
      | inr c ↦ ground (arith, e, c)
    ]
