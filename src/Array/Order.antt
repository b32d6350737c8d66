-- ===== src/Array/Order.antt =====
-- The order that the binary searches rely on, and the positions that they look for.
use lua_sharedtable.Base.{
  ℕ, ◌-◌, ◌≤◌, ◌<◌, ◌≡◌, ◌≢◌, refl, Bool, true, false, ◌&&◌, inl, inr, if◌then◌else◌, ltb, Memory,
  Ret, ok, not_found, ◌⊎◌,
}
use lua_sharedtable.Array.{Sign, below, same, above, Compare}

pub Sign-cases : (s : Sign) → (s ≡ below) ⊎ (s ≡ same) ⊎ (s ≡ above)
Sign-cases below = inl refl
Sign-cases same = inr (inl refl)
Sign-cases above = inr (inr refl)

abbrev pub is_same : Sign → Bool
is_same same = true
is_same below = false
is_same above = false

module _ {A : Type 0} (m : Memory A) (cmp : Compare A) (element : A) (cnt : ℕ) where
  -- The elements are in order, as far as `element` sees: first those before it, then those that
  -- compare equal, then those after it.
  pub record IsOrdered : Type 0 where
    pub above_down :
        (i j : ℕ) → i ≤ j → j < cnt → cmp element (m j) ≡ above → cmp element (m i) ≡ above
    pub below_up :
        (i j : ℕ) → i ≤ j → j < cnt → cmp element (m i) ≡ below → cmp element (m j) ≡ below

  -- The return code that fits the position `k` found from the left, and from the right.
  abbrev pub left_code : ℕ → Ret
  left_code k = if ltb k cnt && is_same (cmp element (m k)) then ok else not_found

  abbrev pub right_code : ℕ → Ret
  right_code k = if ltb 0 k && is_same (cmp element (m (k - 1))) then ok else not_found

  -- All elements before `start` are smaller than `element`, none from `end` on is.
  pub record LeftSplit (start end : ℕ) : Type 0 where
    pub le : start ≤ end
    pub inside : end ≤ cnt
    pub lows : (i : ℕ) → i < start → cmp element (m i) ≡ above
    pub highs : (i : ℕ) → end ≤ i → i < cnt → cmp element (m i) ≢ above

  -- No element before `start` is greater than `element`, all from `end` on are.
  pub record RightSplit (start end : ℕ) : Type 0 where
    pub le : start ≤ end
    pub inside : end ≤ cnt
    pub lows : (i : ℕ) → i < start → cmp element (m i) ≢ below
    pub highs : (i : ℕ) → end ≤ i → i < cnt → cmp element (m i) ≡ below
