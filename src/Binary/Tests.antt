-- ===== src/Binary/Tests.antt =====
-- Runs of the functions of src/binary/binary.c on small integers.
use lua_sharedtable.Base.{
  ℕ, zero, suc, ◌<◌, ◌≤◌, ◌≡◌, num_overflow, false, if◌then◌else◌, leb, arith, Memory, done, value,
  failed, buf_not_enough,
}
use lua_sharedtable.Binary.{IsBytes, vu64_size, vu64_put, vu64_load}
use lua_sharedtable.Binary.Size.{IsWidth, vu64_size-IsWidth}
use lua_sharedtable.Binary.Put.{IsEncoding, vu64_put-IsEncoding}
use lua_sharedtable.Binary.Load.{vu64_load-groups, load-put, too_large}
use lua_sharedtable.Binary.Bytes.{groups}

abbrev blank : Memory ℕ
blank i = 0

abbrev any_shift : ℕ → ℕ → ℕ
any_shift x s = 0

-- 300 is the groups 44 and 2.
abbrev three_hundred : Memory ℕ
three_hundred zero = 172
three_hundred (suc zero) = 2
three_hundred (suc (suc i)) = 0

abbrev marked : Memory ℕ
marked i = 128

three_hundred-IsBytes : IsBytes three_hundred
three_hundred-IsBytes zero = omega arith
three_hundred-IsBytes (suc zero) = omega arith
three_hundred-IsBytes (suc (suc i)) = omega arith

three_hundred-IsWidth : IsWidth 300 1
three_hundred-IsWidth = record { fits = omega arith; needs = λ _. omega arith }

vu64_size-IsWidth_example : (m : ℕ) × (vu64_size 300 ≡ done (suc m)) × IsWidth 300 m × (m < 10)
vu64_size-IsWidth_example = vu64_size-IsWidth 300 (omega arith)

vu64_put-IsEncoding_example :
    (out : Memory ℕ) × (vu64_put blank 4 300 ≡ (out, value 2))
    × IsEncoding out 300 1
    × ((k : ℕ) → 1 < k → out k ≡ 0)
vu64_put-IsEncoding_example = vu64_put-IsEncoding blank 4 300 1 three_hundred-IsWidth (omega arith)

vu64_load-groups_example :
    vu64_load any_shift three_hundred 4 false
    ≡ (if too_large three_hundred 1 then failed num_overflow else value (2, groups three_hundred 2))
vu64_load-groups_example =
    vu64_load-groups any_shift three_hundred three_hundred-IsBytes (suc zero) (omega arith)
      first_marked 4 (omega arith)
  where
    first_marked : (k : ℕ) → k < 1 → 128 ≤ three_hundred k
    first_marked zero h = omega arith
    first_marked (suc k) h = absurd (omega (arith, h))

load-put_example :
    (out : Memory ℕ) × (vu64_put blank 4 300 ≡ (out, value 2))
    × (vu64_load any_shift out 3 false
        ≡ (if leb 3 1 then failed buf_not_enough else value (2, 300)))
load-put_example =
    load-put any_shift blank 4 300 1 3 (λ i. omega arith) (omega arith) three_hundred-IsWidth
      (omega arith)
