-- ===== src/Relay/Hub/Maps.antt =====
-- The two-level map `attachments`: sid, then client, then whether a snapshot is pending.
use terminal_x.Common.{
  ℕ, ◌≡◌, refl, Bool, ◌&&◌, String, Option, none, some, List, [], ◌∷◌, if◌then◌else◌, string_key,
  nat_key, ◌==◌, arith, Option-cases, inl, inr, ◌∙◌,
}
use terminal_x.Common.Maps.{lookup, insert, delete, lookup-insert, lookup-delete}

abbrev pub Attachments : Type 0
Attachments = List (ℕ × List (String × Bool))

-- `attachments[sid]`, empty where it is nil
abbrev pub or_nil : Option (List (String × Bool)) → List (String × Bool)
or_nil none = []
or_nil (some m) = m

unfoldable pub att : Attachments → ℕ → String → Option Bool
att m sid cid = lookup cid (or_nil (lookup sid m))

abbrev put_back : ℕ → Attachments → List (String × Bool) → Attachments
put_back sid m [] = delete sid m
put_back sid m (x ∷ xs) = insert sid (x ∷ xs) m

-- Deletes the client, and the inner map when it becomes empty.
unfoldable pub drop_att : ℕ → String → Attachments → Attachments
drop_att sid cid m = elim (lookup sid m) [ none ↦ m | some atts ↦ put_back sid m (delete cid atts) ]

unfoldable pub put_att : ℕ → String → Bool → Attachments → Attachments
put_att sid cid b m = insert sid (insert cid b (or_nil (lookup sid m))) m

pub att-put_att :
    (sid j : ℕ) (cid k : String) (b : Bool) (m : Attachments)
    → att (put_att sid cid b m) j k ≡ (if sid == j && cid == k then some b else att m j k)
unfolding att put_att
att-put_att sid j cid k b m = ground (
  arith,
  lookup-insert j sid (insert cid b (or_nil (lookup sid m))) m,
  lookup-insert k cid b (or_nil (lookup sid m)),
)

lookup-nil : (k : String) → lookup {V = Bool} k [] ≡ none
unfolding lookup
lookup-nil k = refl

att-put_back :
    (sid j : ℕ) (k : String) (m : Attachments) (atts : List (String × Bool))
    → att (put_back sid m atts) j k ≡ (if sid == j then lookup k atts else att m j k)
unfolding att
att-put_back sid j k m [] = ground (arith, lookup-delete j sid m, lookup-nil k)
att-put_back sid j k m (x ∷ xs) = ground (arith, lookup-insert j sid (x ∷ xs) m)

pub att-drop_att :
    (sid j : ℕ) (cid k : String) (m : Attachments)
    → att (drop_att sid cid m) j k ≡ (if sid == j && cid == k then none else att m j k)
unfolding att drop_att lookup
att-drop_att sid j cid k m = elim (Option-cases (lookup sid m)) [
  | inl e ↦ rw (e, drop_att) (ground (arith, lookup-nil k))
  | inr (atts, e) ↦
      rw (e, drop_att)
        (att-put_back sid j k m (delete cid atts) ∙ ground (arith, lookup-delete k cid atts))
]

pub att-delete :
    (sid j : ℕ) (k : String) (m : Attachments)
    → att (delete sid m) j k ≡ (if sid == j then none else att m j k)
unfolding att
att-delete sid j k m = ground (arith, lookup-delete j sid m, lookup-nil k)
