-- ===== src/Session/Ring/Replay.antt =====
-- What `Tail` and `Delta` read back from the ring.
use native.Mathlib.Nat.{mod-add-mod, zero-add}
use terminal_x.Common.{
  ℕ, zero, suc, ◌+◌, ◌-◌, ◌%◌, ◌^◌, ◌<◌, ◌≤◌, ◌≡◌, ◌⊎◌, inl, inr, refl, ap, ◌∙◌, sym, List, [], ◌∷◌,
  append-nil, append_assoc, length-append, ◌++◌, length, get_or, take, drop, min, arith,
  length-drop, length-take, length-replicate, get_or-drop, get_or-take, list_ext, replicate, none,
  some, pos, negsuc,
}
use terminal_x.Session.Ring.{Ring, new, write, copy_wrapped, copy_last, tail, delta}
use terminal_x.Session.Ring.Copy.{copy_at, length-copy_at, copy_at_outside, copy_at_inside}
use mathlib.Core.List.{flatten}
use terminal_x.Session.Ring.Stream.{write-Holds, Holds, mod_lap}

-- A capacity of 0 or less panics; any other gives a ring of that capacity, which holds the empty
-- stream.
pub new-Holds :
    (k : ℕ)
    → (new (negsuc k) ≡ none)
      × (new (pos 0) ≡ none)
      × ((r : Ring) × (new (pos (suc k)) ≡ some r) × Holds r [] × (length r.buf ≡ suc k))
unfolding new
new-Holds k = (
  refl,
  refl,
  (
    record { buf = replicate (suc k) 0; start = 0; n = 0; seq = 0 },
    refl,
    record {
      room = omega arith;
      start_in = omega arith;
      n_eq = omega arith;
      seq_eq = refl;
      bytes = λ i l. absurd (omega arith);
    },
    length-replicate (suc k) 0,
  ),
)

module _ (r : Ring) (h : List ℕ) (v : Holds r h) (k : ℕ) (some_bytes : 0 < k) (held : k ≤ r.n) where
  abbrev c : ℕ
  c = length r.buf

  abbrev from : ℕ
  from = (r.start + r.n - k) % c

  abbrev once : List ℕ
  once = copy_at (replicate k 0) 0 (drop from r.buf)

  n_le : (r.n ≤ length r.buf) × (r.n ≤ length h) × (from < c)
  n_le = let e = v.n_eq in let room = v.room in omega arith

  length-copy_last : length (copy_last r k) ≡ k
  unfolding copy_last
  length-copy_last = ground (
    arith,
    length-replicate {A = ℕ} k 0,
    length-copy_at (replicate k 0) 0 (drop from r.buf),
    length-copy_at once (min k (c - from)) (take (k - min k (c - from)) r.buf),
  )

  place : (i : ℕ) → i < k → get_or r.buf ((from + i) % c) 0 ≡ get_or h (length h - k + i) 0
  place i l =
      ap (λ j. get_or r.buf j 0)
        (mod-add-mod (r.start + r.n - k) c i ∙ ap (λ j. j % c) (omega (arith, n_le)))
      ∙ v.bytes (r.n - k + i) (omega arith)
      ∙ ap (λ j. get_or h j 0) (omega (arith, n_le))

  get_or-copy_last : (i : ℕ) → i < k → get_or (copy_last r k) i 0 ≡ get_or r.buf ((from + i) % c) 0
  unfolding copy_last
  get_or-copy_last i l = elim (mod_lap (from + i) c (omega (arith, n_le))) [
    | inl (p, e) ↦ rw e (
        ground (
          arith,
          rw zero-add at (copy_at_inside (replicate k 0) 0 (drop from r.buf) i),
          length-replicate {A = ℕ} k 0,
          length-drop from r.buf,
          get_or-drop from r.buf i 0,
          copy_at_outside once (min k (c - from)) (take (k - min k (c - from)) r.buf) i,
        ))
    | inr (p, e) ↦ rw e (
        ground (
          arith,
          n_le,
          copy_at_inside once (c - from) (take (k - (c - from)) r.buf) (i - (c - from)),
          length-copy_at (replicate k 0) 0 (drop from r.buf),
          length-replicate {A = ℕ} k 0,
          length-take (k - (c - from)) r.buf,
          get_or-take (k - (c - from)) r.buf (i - (c - from)) 0,
        ))
  ]

drop_all : (h : List ℕ) (j : ℕ) → length h ≤ j → drop j h ≡ []
drop_all [] zero l = refl
drop_all [] (suc j) l = refl
drop_all (x ∷ h) zero l = absurd (omega arith)
drop_all (x ∷ h) (suc j) l = drop_all h j (omega arith)

copy_last-zero : (r : Ring) → copy_last r 0 ≡ []
unfolding copy_last
copy_last-zero r = refl

-- The last `k` bytes held are the last `k` bytes of the stream.
pub copy_last_lem :
    (r : Ring) (h : List ℕ) (k : ℕ) → Holds r h → k ≤ r.n → copy_last r k ≡ drop (length h - k) h
copy_last_lem r h zero v held = copy_last-zero r ∙ sym (drop_all h (length h - 0) (omega arith))
copy_last_lem r h (suc k) v held =
    list_ext 0 _ _
      (len ∙ omega (arith, length-drop (length h - suc k) h, n_le r h v (suc k) pos held))
      (λ i l.
        get_or-copy_last r h v (suc k) pos held i (omega (arith, len))
        ∙ place r h v (suc k) pos held i (omega (arith, len))
        ∙ sym (get_or-drop (length h - suc k) h i 0))
  where
    pos : 0 < suc k
    pos = omega arith

    len : length (copy_last r (suc k)) ≡ suc k
    len = length-copy_last r h v (suc k) pos held

-- `Tail` returns the last `max` bytes of the stream, or all that the ring has room for where that
-- is less, or none where `max` is negative, with the offset of the end of the stream.
pub tail_lem :
    (r : Ring) (h : List ℕ) (max : ℕ)
    → Holds r h
    → (tail r (pos max) ≡ (drop (length h - min max (length r.buf)) h, length h))
      × (tail r (negsuc max) ≡ ([], length h))
unfolding tail
tail_lem r h max v =
    let e = v.n_eq in
    let q = v.seq_eq in
    (
      ground (arith, copy_last_lem r h max v, copy_last_lem r h r.n v),
      ground (arith, copy_last-zero r),
    )

-- `Delta` returns all the bytes of the stream from `last_seq` on if `last_seq` is an offset that the
-- ring still reaches back to, of a stream within 64 bits.
pub delta_lem :
    (r : Ring) (h : List ℕ) (last_seq : ℕ)
    → Holds r h
    → length h < 2 ^ 64
    → length h - length r.buf ≤ last_seq
    → last_seq ≤ length h
    → delta r last_seq ≡ some (drop last_seq h)
unfolding delta
delta_lem r h last_seq v fits low high =
    let e = v.n_eq in let q = v.seq_eq in ground (arith, copy_last_lem r h (r.seq - last_seq) v)

-- `Delta` refuses every offset before the oldest byte that the ring holds and every future one, of a
-- stream within 64 bits.
pub delta_refused :
    (r : Ring) (h : List ℕ) (last_seq : ℕ)
    → Holds r h
    → length h < 2 ^ 64
    → (last_seq < length h - length r.buf) ⊎ (length h < last_seq)
    → delta r last_seq ≡ none
unfolding delta
delta_refused r h last_seq v fits out = let e = v.n_eq in let q = v.seq_eq in ground arith

-- The writes of a session, in order.
unfoldable pub write_all : Ring → List (List ℕ) → Ring
write_all r [] = r
write_all r (p ∷ ps) = write_all (write r p).0 ps

-- After any writes to a ring, it holds its stream with those bytes appended, if they stay within
-- 64 bits.
pub write_all-Holds :
    (r : Ring) (h : List ℕ) (ps : List (List ℕ))
    → Holds r h
    → length (h ++ flatten ps) < 2 ^ 64
    → Holds (write_all r ps) (h ++ flatten ps)
unfolding write_all flatten
write_all-Holds r h [] v fits = rw append-nil v
write_all-Holds r h (p ∷ ps) v fits = rw (← append_assoc) (
    write_all-Holds (write r p).0 (h ++ p) ps
      (write-Holds r h p v
        (omega (arith, length-append h (p ++ flatten ps), length-append p (flatten ps)))).0
      (rw append_assoc fits))

-- A write leaves the room of the ring.
pub length-write : (r : Ring) (p : List ℕ) → length (write r p).0.buf ≡ length r.buf
unfolding write copy_wrapped
length-write r p =
    let c = length r.buf in
    let end = (r.start + r.n) % c in
    let once = copy_at r.buf end p in
    ground (
      arith,
      length-copy_at r.buf 0 (drop (length p - c) p),
      length-copy_at r.buf end p,
      length-copy_at once 0 (drop (min (c - end) (length p)) p),
    )
