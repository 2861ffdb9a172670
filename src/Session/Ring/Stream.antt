-- ===== src/Session/Ring/Stream.antt =====
-- The ring against the stream of all bytes written so far.
use native.Mathlib.Nat.{mod-eq_of_lt, mod-eq-sub-mod, mod-add-mod, zero-add}
use native.Mathlib.Decide.{dec_le, dec_lt}
use terminal_x.Common.{
  ℕ, ◌+◌, ◌-◌, ◌%◌, ◌^◌, ◌<◌, ◌≤◌, ◌≡◌, ◌⊎◌, inl, inr, ap, ◌∙◌, sym, List, ◌++◌, length, get_or,
  drop, min, arith, ltb, leb, length-append, true, false, get_or-append_left, get_or-append_right,
  length-drop, get_or-drop,
}
use terminal_x.Session.Ring.{Ring, write, copy_wrapped}
use terminal_x.Session.Ring.Copy.{copy_at, length-copy_at, copy_at_outside, copy_at_inside}

-- One lap at most.
pub mod_lap : (a c : ℕ) → a < c + c → ((a < c) × (a % c ≡ a)) ⊎ ((c ≤ a) × (a % c ≡ a - c))
mod_lap a c h = elim (dec_lt a c) [
  | yes p ↦ inl (p, mod-eq_of_lt p)
  | no p ↦
      inr (omega arith, mod-eq-sub-mod {n = a} {m = c} (omega arith) ∙ mod-eq_of_lt (omega arith))
]

length-copy_wrapped :
    (buf : List ℕ) (end : ℕ) (p : List ℕ) → length (copy_wrapped buf end p) ≡ length buf
unfolding copy_wrapped
length-copy_wrapped buf end p = ground (
  arith,
  length-copy_at buf end p,
  length-copy_at (copy_at buf end p) 0 (drop (min (length buf - end) (length p)) p),
)

module _ (buf : List ℕ) (end : ℕ) (p : List ℕ) (inside : end < length buf)
    (fits : length p < length buf) where
  -- The `k`th byte of `p` lands `k` places round the ring from `end`.
  copy_wrapped_new :
      (k : ℕ)
      → k < length p
      → get_or (copy_wrapped buf end p) ((end + k) % length buf) 0 ≡ get_or p k 0
  unfolding copy_wrapped
  copy_wrapped_new k h = elim (mod_lap (end + k) (length buf) (omega arith)) [
    | inl (l, e) ↦ rw e (
        ground (
          arith,
          copy_at_inside buf end p k,
          length-drop (length buf - end) p,
          copy_at_outside (copy_at buf end p) 0 (drop (length buf - end) p) (end + k),
        ))
    | inr (l, e) ↦ rw e (
        ground (
          arith,
          length-drop (length buf - end) p,
          length-copy_at buf end p,
          zero-add (end + k - length buf),
          back l,
          copy_at_inside (copy_at buf end p) 0 (drop (length buf - end) p) (end + k - length buf),
          get_or-drop (length buf - end) p (end + k - length buf) 0,
        ))
  ]
    where
      back : length buf ≤ end + k → length buf - end + (end + k - length buf) ≡ k
      back l = omega arith

  -- The places beyond `p` stay as they were.
  copy_wrapped_old :
      (k : ℕ)
      → length p ≤ k
      → k < length buf
      → get_or (copy_wrapped buf end p) ((end + k) % length buf) 0
        ≡ get_or buf ((end + k) % length buf) 0
  unfolding copy_wrapped
  copy_wrapped_old k h k' = elim (mod_lap (end + k) (length buf) (omega arith)) [
    | inl (l, e) ↦
        rw e (ground (arith, copy_at_outside buf end p (end + k), length-copy_at buf end p))
    | inr (l, e) ↦ rw e (
        ground (
          arith,
          copy_at_outside buf end p (end + k - length buf),
          length-drop (length buf - end) p,
          copy_at_outside (copy_at buf end p) 0 (drop (length buf - end) p) (end + k - length buf),
        ))
  ]

-- The ring holds the last bytes of the stream `h`, as many as fit, and its offset is the length of `h`.
pub record Holds (r : Ring) (h : List ℕ) : Type 0 where
  pub room : 0 < length r.buf
  pub start_in : r.start < length r.buf
  pub n_eq : r.n ≡ min (length h) (length r.buf)
  pub seq_eq : r.seq ≡ length h
  pub bytes :
      (i : ℕ)
      → i < r.n
      → get_or r.buf ((r.start + i) % length r.buf) 0 ≡ get_or h (length h - r.n + i) 0

-- Position `length h - n + i` of a stream, in the old part or in what was appended.
append_old : (h p : List ℕ) (i : ℕ) → i < length h → get_or (h ++ p) i 0 ≡ get_or h i 0
append_old h p i l = get_or-append_left h p i 0 l

append_new : (h p : List ℕ) (i : ℕ) → length h ≤ i → get_or (h ++ p) i 0 ≡ get_or p (i - length h) 0
append_new h p i l =
    ap (λ k. get_or (h ++ p) k 0) {x = i} {y = length h + (i - length h)} (omega arith)
    ∙ get_or-append_right h p (i - length h) 0

module _ (r : Ring) (h p : List ℕ) (v : Holds r h) (under : length p < length r.buf) where
  abbrev end : ℕ
  end = (r.start + r.n) % length r.buf

  n_le : (r.n ≤ length r.buf) × (r.n ≤ length h)
  n_le = omega arith

  end_in : end < length r.buf
  end_in = let room = v.room in omega arith

  turn : (k : ℕ) → (end + k) % length r.buf ≡ (r.start + r.n + k) % length r.buf
  turn k = mod-add-mod (r.start + r.n) (length r.buf) k

  turned_old :
      (t : ℕ)
      → t < r.n
      → (end + (length r.buf - r.n + t)) % length r.buf ≡ (r.start + t) % length r.buf
  turned_old t l =
      turn (length r.buf - r.n + t)
      ∙ mod-eq-sub-mod {n = r.start + r.n + (length r.buf - r.n + t)} {m = length r.buf}
          (omega (arith, n_le))
      ∙ ap (λ k. k % length r.buf) (omega (arith, n_le))

  turned_new : (t : ℕ) → r.n ≤ t → (end + (t - r.n)) % length r.buf ≡ (r.start + t) % length r.buf
  turned_new t l = turn (t - r.n) ∙ ap (λ k. k % length r.buf) (omega arith)

  -- After the copy, `t` places from the old start stands the byte `t` after the oldest one.
  after_copy :
      (t : ℕ)
      → r.n + length p - length r.buf ≤ t
      → t < r.n + length p
      → get_or (copy_wrapped r.buf end p) ((r.start + t) % length r.buf) 0
        ≡ get_or (h ++ p) (length h - r.n + t) 0
  after_copy t low high = elim (dec_lt t r.n) [
    | yes l ↦
        ap (λ k. get_or (copy_wrapped r.buf end p) k 0) (sym (turned_old t l))
        ∙ copy_wrapped_old r.buf end p end_in under (length r.buf - r.n + t) (omega (arith, n_le))
            (omega (arith, n_le))
        ∙ ap (λ k. get_or r.buf k 0) (turned_old t l)
        ∙ v.bytes t l
        ∙ sym (append_old h p (length h - r.n + t) (omega (arith, n_le)))
    | no g ↦
        ap (λ k. get_or (copy_wrapped r.buf end p) k 0) (sym (turned_new t (omega arith)))
        ∙ copy_wrapped_new r.buf end p end_in under (t - r.n) (omega arith)
        ∙ ap (λ k. get_or p k 0) (omega (arith, n_le))
        ∙ sym (append_new h p (length h - r.n + t) (omega (arith, n_le)))
  ]

-- `Holds` over a buffer whose length is known.
Holds-by :
    (buf : List ℕ) (start n seq c : ℕ) (h : List ℕ)
    → length buf ≡ c
    → start < c
    → n ≡ min (length h) c
    → seq ≡ length h
    → ((i : ℕ) → i < n → get_or buf ((start + i) % c) 0 ≡ get_or h (length h - n + i) 0)
    → Holds (record { buf = buf; start = start; n = n; seq = seq }) h
Holds-by buf start n seq c h e st ne se by = record {
  room = omega arith;
  start_in = omega arith;
  n_eq = rw e ne;
  seq_eq = se;
  bytes = λ i l. rw e (by i l);
}

module _ (r : Ring) (h p : List ℕ) (v : Holds r h) (fits : length h + length p < 2 ^ 64) where
  seq_grows : (r.seq + length p) % 2 ^ 64 ≡ length (h ++ p)
  seq_grows = let e = v.seq_eq in omega (arith, length-append h p)

  -- All of the ring is overwritten.
  write_over : length r.buf ≤ length p → Holds (write r p).0 (h ++ p)
  unfolding write
  write_over over =
      let e : leb (length r.buf) (length p) ≡ true = ground arith in
      let room = v.room in
      rw e (
        Holds-by (copy_at r.buf 0 (drop (length p - length r.buf) p)) 0 (length r.buf) _
          (length r.buf) (h ++ p) (length-copy_at r.buf 0 (drop (length p - length r.buf) p)) room
          (omega (arith, length-append h p)) seq_grows
          (λ i l.
            rw (zero-add, mod-eq_of_lt l)
              (rw zero-add at (
                  copy_at_inside r.buf 0 (drop (length p - length r.buf) p) i
                    (omega (arith, length-drop (length p - length r.buf) p)) (omega arith))
                ∙ get_or-drop (length p - length r.buf) p i 0
                ∙ ap (λ k. get_or p k 0) (omega (arith, length-append h p))
                ∙ sym (
                    append_new h p (length (h ++ p) - length r.buf + i)
                      (omega (arith, length-append h p))))))

  -- The ring becomes full, and its oldest bytes give way.
  write_full :
      length p < length r.buf → length r.buf < r.n + length p → Holds (write r p).0 (h ++ p)
  unfolding write
  write_full under full =
      let e : leb (length r.buf) (length p) ≡ false = ground arith in
      let e' : ltb (length r.buf) (r.n + length p) ≡ true = ground arith in
      let end = (r.start + r.n) % length r.buf in
      let over = r.n + length p - length r.buf in
      let room = v.room in
      rw e (
        rw e' (
          Holds-by (copy_wrapped r.buf end p) ((r.start + over) % length r.buf) (length r.buf) _
            (length r.buf) (h ++ p) (length-copy_wrapped r.buf end p) (omega arith)
            (omega (arith, length-append h p, n_le r h p v under)) seq_grows
            (λ i l.
              ap (λ k. get_or (copy_wrapped r.buf end p) k 0)
                (mod-add-mod (r.start + over) (length r.buf) i
                  ∙ ap (λ k. k % length r.buf) (omega arith))
              ∙ after_copy r h p v under (over + i) (omega arith) (omega arith)
              ∙ ap (λ k. get_or (h ++ p) k 0)
                  (omega (arith, length-append h p, n_le r h p v under)))))

  -- Everything fits.
  write_fits :
      length p < length r.buf → r.n + length p ≤ length r.buf → Holds (write r p).0 (h ++ p)
  unfolding write
  write_fits under fit =
      let e : leb (length r.buf) (length p) ≡ false = ground arith in
      let e' : ltb (length r.buf) (r.n + length p) ≡ false = ground arith in
      let end = (r.start + r.n) % length r.buf in
      let len = v.n_eq in
      rw e (
        rw e' (
          Holds-by (copy_wrapped r.buf end p) r.start (r.n + length p) _ (length r.buf) (h ++ p)
            (length-copy_wrapped r.buf end p) v.start_in (omega (arith, length-append h p))
            seq_grows
            (λ i l.
              after_copy r h p v under i (omega arith) l
              ∙ ap (λ k. get_or (h ++ p) k 0)
                  (omega (arith, length-append h p, n_le r h p v under)))))

-- A write appends its bytes to the stream that the ring holds, and returns the offset that the
-- stream had before, unless the stream outgrows 64 bits.
pub write-Holds :
    (r : Ring) (h p : List ℕ)
    → Holds r h
    → length h + length p < 2 ^ 64
    → Holds (write r p).0 (h ++ p) × ((write r p).1 ≡ length h)
write-Holds r h p v fits = (held, at)
  where
    at : (write r p).1 ≡ length h
    at = let e = v.seq_eq in unfold write in ground arith

    held : Holds (write r p).0 (h ++ p)
    held = elim (dec_le (length r.buf) (length p)) [
      | yes over ↦ write_over r h p v fits over
      | no under ↦ elim (dec_lt (length r.buf) (r.n + length p)) [
        | yes full ↦ write_full r h p v fits (omega arith) full
        | no fit ↦ write_fits r h p v fits (omega arith) (omega arith)
      ]
    ]
