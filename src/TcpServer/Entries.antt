-- ===== src/TcpServer/Entries.antt =====
-- TcpServer.cc: the map of connections as a list of names with what they stand for.
use head_write_muduo_epoll_c.Base.{
  ℕ, ◌+◌, ◌<◌, ◌≡◌, ◌≢◌, refl, sym, ap, ◌∙◌, inl, inr, Bool-cases, none, List, [], ◌∷◌, arith,
  lookup, insert, erase, text_key, same_text, same_text_iff, lookup-insert, lookup-erase,
}

abbrev pub Entries : Type 0
Entries = List (List ℕ × (ℕ × ℕ))

module _ (name_of : ℕ → List ℕ) where
  -- Every name of the map belongs to a number that was given out.
  abbrev pub Numbered : ℕ → Entries → Type 0
  Numbered given [] = Unit
  Numbered given ((name, v) ∷ m) =
      ((id : ℕ) × (id < given) × (name ≡ name_of id)) × Numbered given m

  Numbered-suc : (given : ℕ) (m : Entries) → Numbered given m → Numbered (given + 1) m
  Numbered-suc given [] h = tt
  Numbered-suc given ((name, v) ∷ m) ((id, below, e), rest) =
      ((id, omega arith, e), Numbered-suc given m rest)

  pub Numbered-insert :
      (given : ℕ) (v : ℕ × ℕ) (m : Entries)
      → Numbered given m
      → Numbered (given + 1) (insert (name_of given) v m)
  Numbered-insert given v [] h = ((given, omega arith, refl), tt)
  Numbered-insert given v ((name, w) ∷ m) ((id, below, e), rest) =
      elim (Bool-cases (same_text name (name_of given))) [
        | inl same ↦ rw same ((given, omega arith, refl), Numbered-suc given m rest)
        | inr other ↦ rw other ((id, omega arith, e), Numbered-insert given v m rest)
      ]

  pub Numbered-erase :
      (given : ℕ) (gone : List ℕ) (m : Entries) → Numbered given m → Numbered given (erase gone m)
  Numbered-erase given gone [] h = tt
  Numbered-erase given gone ((name, w) ∷ m) (first, rest) =
      elim (Bool-cases (same_text name gone)) [
        | inl same ↦ rw same (Numbered-erase given gone m rest)
        | inr other ↦ rw other (first, Numbered-erase given gone m rest)
      ]

  pub lookup-Numbered :
      (given : ℕ) (m : Entries)
      → Numbered given m
      → ((id : ℕ) → id < given → name_of id ≢ name_of given)
      → lookup (name_of given) m ≡ none
  lookup-Numbered given [] h distinct = refl
  lookup-Numbered given ((name, w) ∷ m) ((id, below, e), rest) distinct =
      elim (Bool-cases (same_text name (name_of given))) [
        | inl same ↦
            absurd (distinct id below (sym e ∙ (same_text_iff name (name_of given)).0 same))
        | inr other ↦ rw other (lookup-Numbered given m rest distinct)
      ]

pub erase-insert :
    (k j : List ℕ) (v : ℕ × ℕ) (m : Entries)
    → lookup k m ≡ none
    → lookup j (erase k (insert k v m)) ≡ lookup j m
erase-insert k j v m absent = lookup-erase k j (insert k v m) ∙ elim (Bool-cases (same_text k j)) [
  | inl same ↦ rw same (sym absent ∙ ap (λ i. lookup i m) ((same_text_iff k j).0 same))
  | inr other ↦ rw other (lookup-insert k j v m ∙ rw other refl)
]
