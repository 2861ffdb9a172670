-- ===== src/Session/Ring.antt =====
-- internal/session/ring.go: the scrollback ring. The mutex makes each method one step. `int` is 64
-- bits wide and holds every index here; `seq` is a uint64.
pub mod Copy
pub mod Stream
pub mod Replay
mod Tests
use terminal_x.Common.{
  ℕ, zero, suc, ℤ, pos, negsuc, ◌+◌, ◌-◌, ◌%◌, ◌^◌, List, [], Bool, Option, none, some, ◌||◌, ltb,
  leb, nat_beq, if◌then◌else◌, length, take, drop, replicate, min,
}
use Copy.{copy_at}

pub record Ring : Type 0 where
  pub buf : List ℕ
  pub start : ℕ
  pub n : ℕ
  pub seq : ℕ

-- `none` is the panic on a capacity that is not positive.
unfoldable pub new : ℤ → Option Ring
new (negsuc _) = none
new (pos zero) = none
new (pos (suc k)) = some (record { buf = replicate (suc k) 0; start = 0; n = 0; seq = 0 })

-- `copy` into `r.buf[end:]`, then what did not fit to the front
copy_wrapped : List ℕ → ℕ → List ℕ → List ℕ
copy_wrapped buf end p =
    let first = min (length buf - end) (length p) in
    let once = copy_at buf end p in
    if ltb first (length p) then copy_at once 0 (drop first p) else once

-- The new ring, and the offset of the first byte of `p`.
unfoldable pub write : Ring → List ℕ → Ring × ℕ
unfolding copy_wrapped
write r p =
    let c = length r.buf in
    let m = length p in
    let seq' = (r.seq + m) % 2 ^ 64 in
    if leb c m
    then (record { buf = copy_at r.buf 0 (drop (m - c) p); start = 0; n = c; seq = seq' }, r.seq)
    else (
      if ltb c (r.n + m)
          then record {
            buf = copy_wrapped r.buf ((r.start + r.n) % c) p;
            start = (r.start + (r.n + m - c)) % c;
            n = c;
            seq = seq';
          }
          else record {
            buf = copy_wrapped r.buf ((r.start + r.n) % c) p;
            start = r.start;
            n = r.n + m;
            seq = seq';
          },
      r.seq,
    )

-- `k` is at most `r.n`.
unfoldable pub copy_last : Ring → ℕ → List ℕ
copy_last r k =
    let out = replicate k 0 in
    let c = length r.buf in
    let from = (r.start + r.n - k) % c in
    let first = min k (c - from) in
    let once = copy_at out 0 (drop from r.buf) in
    if nat_beq k 0
    then out
    else if ltb first k
    then copy_at once first (take (k - first) r.buf)
    else once

-- `max`, brought between 0 and `r.n`
abbrev clamp : ℕ → ℤ → ℕ
clamp n (pos max) = if ltb n max then n else max
clamp n (negsuc _) = 0

-- The bytes, and the offset of their end.
unfoldable pub tail : Ring → ℤ → List ℕ × ℕ
unfolding copy_last
tail r max = (copy_last r (clamp r.n max), r.seq)

-- `r.seq - uint64(r.n)` is a uint64.
unfoldable pub delta : Ring → ℕ → Option (List ℕ)
unfolding copy_last
delta r last_seq =
    let oldest = (r.seq + 2 ^ 64 - r.n) % 2 ^ 64 in
    if ltb last_seq oldest || ltb r.seq last_seq
    then none
    else some (copy_last r (r.seq - last_seq))
