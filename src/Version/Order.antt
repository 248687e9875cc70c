-- ===== src/Version/Order.antt =====
-- `<=` of tuples of ints is a total order.
use oracle_patching.Prelude.{◌≡◌, refl, true, false, [], ◌∷◌, arith}
use oracle_patching.Prelude.Int.{pos, negsuc}
use oracle_patching.Version.{Version, tuple_le}

pub tuple_le_refl : (a : Version) → tuple_le a a ≡ true
unfolding tuple_le
tuple_le_refl [] = refl
tuple_le_refl (pos x ∷ a) = ground (arith, tuple_le_refl a)
tuple_le_refl (negsuc x ∷ a) = ground (arith, tuple_le_refl a)

pub tuple_le_trans :
    (a b c : Version) → tuple_le a b ≡ true → tuple_le b c ≡ true → tuple_le a c ≡ true
unfolding tuple_le
tuple_le_trans [] b c h k = refl
tuple_le_trans (x ∷ a) [] c h k = cc
tuple_le_trans (x ∷ a) (y ∷ b) [] h k = cc
tuple_le_trans (pos x ∷ a) (pos y ∷ b) (pos z ∷ c) h k = ground (arith, tuple_le_trans a b c)
tuple_le_trans (x ∷ a) (y ∷ b) (z ∷ c) h k = ground (arith, tuple_le_trans a b c)

pub tuple_le_antisymm : (a b : Version) → tuple_le a b ≡ true → tuple_le b a ≡ true → a ≡ b
unfolding tuple_le
tuple_le_antisymm [] [] h k = refl
tuple_le_antisymm [] (y ∷ b) h k = cc
tuple_le_antisymm (x ∷ a) [] h k = cc
tuple_le_antisymm (x ∷ a) (y ∷ b) h k = ground (arith, tuple_le_antisymm a b)

pub tuple_le_total : (a b : Version) → tuple_le a b ≡ false → tuple_le b a ≡ true
unfolding tuple_le
tuple_le_total [] b h = cc
tuple_le_total (x ∷ a) [] h = refl
tuple_le_total (x ∷ a) (y ∷ b) h = ground (arith, tuple_le_total a b)
