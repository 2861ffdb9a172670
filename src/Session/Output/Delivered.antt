-- ===== src/Session/Output/Delivered.antt =====
-- The deliveries against the stream of the terminal's bytes.
use mathlib.Core.Path.{subst}
use terminal_x.Common.{
  ℕ, ◌+◌, ◌^◌, ◌<◌, ◌≡◌, ◌≢◌, refl, sym, ap, ◌∙◌, true, false, List, [], ◌∷◌, ◌++◌, append-nil,
  append_assoc, length-append, length, arith, ◌⊎◌, inl, inr,
}
use terminal_x.Session.Ring.{write}
use terminal_x.Session.Ring.Stream.{Holds, write-Holds}
use terminal_x.Session.Output.{Output, Delivery, append, flush, is_empty}

-- The steps that the goroutines of a session take, in any order: output is appended, or flushed by the
-- timer, a big batch, a replay or the end of the process.
pub data Step : Type 0 where
  appends : List ℕ → Step
  flushes : Step

unfoldable pub run : Output → List Step → List Delivery × Output
run o [] = ([], o)
run o (appends p ∷ steps) = run (append o p).1 steps
run o (flushes ∷ steps) =
    let (now, o') = flush o in let (later, end) = run o' steps in (now ++ later, end)

unfoldable pub appended : List Step → List ℕ
appended [] = []
appended (appends p ∷ steps) = p ++ appended steps
appended (flushes ∷ steps) = appended steps

-- The bytes of the deliveries.
abbrev pub bytes_of : List Delivery → List ℕ
bytes_of [] = []
bytes_of ((_, p) ∷ ds) = p ++ bytes_of ds

-- Each delivery's offset is where the one before it ended, and no delivery is empty.
abbrev pub Contiguous : ℕ → List Delivery → Type 0
Contiguous at [] = Unit
Contiguous at ((seq, p) ∷ ds) = (seq ≡ at) × (p ≢ []) × Contiguous (at + length p) ds

-- The ring holds the stream `h` and what is pending after it, and the pending offset is the length of `h`.
pub record Flowing (o : Output) (h : List ℕ) : Type 0 where
  pub held : Holds o.ring (h ++ o.pending)
  pub at : is_empty o.pending ≡ false → o.pending_seq ≡ length h
  pub live : o.listening ≡ true

list_cases : (xs : List ℕ) → (xs ≡ []) ⊎ ((y : ℕ) × (ys : List ℕ) × (xs ≡ y ∷ ys))
list_cases [] = inl refl
list_cases (x ∷ xs) = inr (x, xs, refl)

pub append-Flowing :
    (o : Output) (h p : List ℕ)
    → Flowing o h
    → length (h ++ o.pending) + length p < 2 ^ 64
    → Flowing (append o p).1 h × ((append o p).1.pending ≡ o.pending ++ p)
unfolding append
append-Flowing o h p f fits =
    let (hold, start) = write-Holds o.ring (h ++ o.pending) p f.held fits in
    (record { held = rw (← append_assoc) hold; at = at_end; live = f.live }, refl)
  where
    starts_at : (write o.ring p).1 ≡ length (h ++ o.pending)
    starts_at = (write-Holds o.ring (h ++ o.pending) p f.held fits).1

    at_end : is_empty (o.pending ++ p) ≡ false → (append o p).1.pending_seq ≡ length h
    at_end e = elim (list_cases o.pending) [
      | inl n ↦ ground (arith, n, starts_at, length-append h o.pending)
      | inr (x, xs, n) ↦ ground (arith, n, f.at)
    ]

pub flush-Flowing :
    (o : Output) (h : List ℕ)
    → Flowing o h
    → Flowing (flush o).1 (h ++ o.pending)
      × (bytes_of (flush o).0 ≡ o.pending)
      × Contiguous (length h) (flush o).0
unfolding flush
flush-Flowing o h f = elim (list_cases o.pending) [
  | inl e ↦ (flowing, ground (arith, e), ground (arith, e))
  | inr (x, xs, e) ↦
      (flowing, ground (arith, e, f.live, append-nil o.pending), ground (arith, e, f.live, f.at))
]
  where
    flowing : Flowing (record o { pending = []; timer = false }) (h ++ o.pending)
    flowing = record { held = rw append-nil f.held; at = λ q. ground arith; live = f.live }

pub flushed : (o : Output) → (flush o).1.pending ≡ []
unfolding flush
flushed o = refl

bytes_of-append : (ds es : List Delivery) → bytes_of (ds ++ es) ≡ bytes_of ds ++ bytes_of es
bytes_of-append [] es = refl
bytes_of-append ((seq, p) ∷ ds) es = simp (bytes_of-append ds es, append_assoc)

Contiguous-append :
    (at : ℕ) (ds es : List Delivery)
    → Contiguous at ds
    → Contiguous (at + length (bytes_of ds)) es
    → Contiguous at (ds ++ es)
Contiguous-append at [] es c d = subst (λ x. Contiguous x es) (omega arith) d
Contiguous-append at ((seq, p) ∷ ds) es (e, ne, c) d = (
  e,
  ne,
  Contiguous-append (at + length p) ds es c
      (subst (λ x. Contiguous x es) (omega (arith, length-append p (bytes_of ds))) d),
)

-- Of an output that is Flowing, that is whose ring holds the delivered stream and the pending bytes after it,
-- whatever the order of appends and flushes, the deliveries are contiguous from where the stream stood,
-- together with what is still pending they are exactly what was pending and the bytes appended, and the
-- output stays Flowing, as long as the stream stays within 64 bits.
pub run-Flowing :
    (o : Output) (h : List ℕ) (steps : List Step)
    → Flowing o h
    → length (h ++ o.pending) + length (appended steps) < 2 ^ 64
    → (bytes_of (run o steps).0 ++ (run o steps).1.pending ≡ o.pending ++ appended steps)
      × Contiguous (length h) (run o steps).0
      × Flowing (run o steps).1 (h ++ bytes_of (run o steps).0)
unfolding run appended
run-Flowing o h [] f fits = (sym (append-nil o.pending), tt, rw append-nil f)
run-Flowing o h (appends p ∷ steps) f fits =
    let (g, e) = append-Flowing o h p f (omega (arith, length-append p (appended steps))) in
    let (b, c, w) = run-Flowing (append o p).1 h steps g (
      omega (
        arith,
        ap length e,
        length-append h (append o p).1.pending,
        length-append h o.pending,
        length-append o.pending p,
        length-append p (appended steps),
      )) in
    (b ∙ ap (λ x. x ++ appended steps) e ∙ append_assoc o.pending p (appended steps), c, w)
run-Flowing o h (flushes ∷ steps) f fits =
    let (g, e, k) = flush-Flowing o h f in
    let (b, c, w) = run-Flowing (flush o).1 (h ++ o.pending) steps g (
      omega
        (arith, fits, ap length (flushed o), length-append (h ++ o.pending) (flush o).1.pending)) in
    (
      simp (bytes_of-append (flush o).0 (run (flush o).1 steps).0, e, append_assoc, b, flushed o),
      Contiguous-append (length h) (flush o).0 (run (flush o).1 steps).0 k (
          subst (λ n. Contiguous n (run (flush o).1 steps).0)
            (length-append h o.pending ∙ ap (λ x. length h + length x) (sym e)) c),
      subst (Flowing (run (flush o).1 steps).1)
          (append_assoc h o.pending _
            ∙ ap (λ x. h ++ x)
                (ap (λ x. x ++ bytes_of (run (flush o).1 steps).0) (sym e)
                  ∙ sym (bytes_of-append (flush o).0 _)))
          w,
    )
