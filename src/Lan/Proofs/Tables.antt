-- ===== src/Lan/Proofs/Tables.antt =====
-- src/LanPeer.cpp: the table of the host's sessions, its changes one by one.
use ii_server_host.Prelude.Dict
use ii_server_host.Prelude.{
  ◌==◌, Bool-cases, length, ◌≤◌, ◌≡◌, refl, sym, ◌∙◌, ◌≢◌, inl, inr, true, false, some, [], ◌∷◌,
  arith,
}
use ii_server_host.Prelude.Text.{Text, eq_iff, is_empty}
use ii_server_host.Prelude.Dict.{nat_eq, text_eq, Dict}
use ii_server_host.Lan.State.{Socket, Session}
use ii_server_host.Lan.Host.{is_taken}

-- A paired session has a name for its device, and none of its approval is due.
pub record IsSound (session : Session) : Type 0 where
  pub approved : session.paired ≡ true → session.awaiting_approval ≡ false
  pub named : session.paired ≡ true → is_empty session.id ≡ false

-- At most eight sessions, each sound, and no two under one identity.
pub record IsTable (d : Dict Socket Session) : Type 0 where
  pub few : length d ≤ 8
  pub sound : (s : Socket) (a : Session) → Dict.find s d ≡ some a → IsSound a
  pub unique :
      (s t : Socket) (a b : Session)
      → Dict.find s d ≡ some a
      → Dict.find t d ≡ some b
      → a.id ≡ b.id
      → is_empty a.id ≡ false
      → s ≡ t

pub length-insert_known :
    (s : Socket) (a b : Session) (d : Dict Socket Session)
    → Dict.find s d ≡ some b
    → length (Dict.insert s a d) ≤ length d
unfolding Dict.insert
length-insert_known s a b d h = omega (arith, Dict.length-remove_lt s d b h)

pub remove-IsTable : (s : Socket) (d : Dict Socket Session) → IsTable d → IsTable (Dict.remove s d)
remove-IsTable s d h = record {
  few = omega (arith, h.few, Dict.length-remove-le s d);
  sound = λ k a e. h.sound k a (Dict.find_of_remove s k d a e);
  unique = λ k j a b e f.
      h.unique k j a b (Dict.find_of_remove s k d a e) (Dict.find_of_remove s j d b f);
}

-- A session that takes a place: it is sound, and under no identity that another one has.
pub insert-IsTable :
    (s : Socket) (new : Session) (d : Dict Socket Session)
    → IsTable d
    → length (Dict.insert s new d) ≤ 8
    → IsSound new
    → ((t : Socket) (b : Session)
        → Dict.find t d ≡ some b
        → b.id ≡ new.id
        → is_empty new.id ≡ false
        → t ≡ s)
    → IsTable (Dict.insert s new d)
insert-IsTable s new d h few ok alone = record {
  few = few;
  sound = λ k a e. elim (Dict.find_of_insert s k new a d e) [
    | inl (same, new_a) ↦ rw (← new_a) ok
    | inr old ↦ h.sound k a old
  ];
  unique = λ k j a b e f same_id named. elim (Dict.find_of_insert s k new a d e) [
    | inl (sk, new_a) ↦ elim (Dict.find_of_insert s j new b d f) [
      | inl (sj, new_b) ↦ sym sk ∙ sj
      | inr old ↦ sym sk ∙ sym (alone j b old (rw new_a (sym same_id)) (rw new_a named))
    ]
    | inr old ↦ elim (Dict.find_of_insert s j new b d f) [
      | inl (sj, new_b) ↦ alone k a old (rw new_b same_id) (rw (new_b, ← same_id) named) ∙ sj
      | inr older ↦ h.unique k j a b old older same_id named
    ]
  ];
}

-- The session of a socket is replaced under the same identity.
pub replace-IsTable :
    (s : Socket) (new old : Session) (d : Dict Socket Session)
    → IsTable d
    → Dict.find s d ≡ some old
    → IsSound new
    → new.id ≡ old.id
    → IsTable (Dict.insert s new d)
replace-IsTable s new old d h e ok same =
    insert-IsTable s new d h (omega (arith, h.few, length-insert_known s new old d e)) ok
      (λ t b f i n. h.unique t s b old f e (i ∙ same) (rw (i) n))

pub is_taken_sound :
    (id : Text) (d : Dict Socket Session) (t : Socket) (b : Session)
    → is_taken id d ≡ false
    → Dict.find t d ≡ some b
    → b.id ≢ id
unfolding is_taken Dict.find
is_taken_sound id [] t b n f same = absurd (cc f)
is_taken_sound id ((j, c) ∷ rest) t b n f same = elim (Bool-cases (j == t)) [
  | inl y ↦ absurd (ground (arith, n, f, y, same, eq_iff c.id id))
  | inr o ↦ is_taken_sound id rest t b (ground (arith, n)) (rw o at f) same
]

is_taken-remove :
    (id : Text) (s : Socket) (d : Dict Socket Session)
    → is_taken id d ≡ false
    → is_taken id (Dict.remove s d) ≡ false
unfolding is_taken Dict.remove
is_taken-remove id s [] n = refl
is_taken-remove id s ((j, c) ∷ rest) n = ground (arith, is_taken-remove id s rest, n)

-- The identity of a session does not become taken by a change of its other fields.
pub is_taken-insert :
    (id : Text) (s : Socket) (new old : Session) (d : Dict Socket Session)
    → Dict.find s d ≡ some old
    → new.id ≡ old.id
    → is_taken id d ≡ false
    → is_taken id (Dict.insert s new d) ≡ false
unfolding is_taken Dict.insert
is_taken-insert id s new old d e same n =
    let other : new.id ≢ id = λ i. is_taken_sound id d s old n e (sym same ∙ i) in
    ground (arith, other, eq_iff new.id id, is_taken-remove id s d n)

-- A sound session without an identity is not paired.
pub unnamed_unpaired : (a : Session) → IsSound a → is_empty a.id ≡ true → a.paired ≡ false
unnamed_unpaired a ok e = ground (arith, ok.named, e)

pub unpaired-IsSound : (a : Session) → a.paired ≡ false → IsSound a
unpaired-IsSound a e = record {
  approved = λ p. absurd (cc (e, p));
  named = λ p. absurd (cc (e, p));
}
