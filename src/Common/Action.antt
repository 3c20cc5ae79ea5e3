-- ===== src/Common/Action.antt =====
-- Fallible calls that change a state: the state comes back after an error too, since what was done
-- stays done. `◌>>=◌` is Rust's `?`.
use cyphal_service.Common.Tests.{Result, ok, err}

abbrev pub Action : Type 0 → Type 0 → Type 0 → Type 0
Action S E A = S → Result A E × S

-- What `?` does with a result.
abbrev pub follow : {S E A B : Type 0} → (A → Action S E B) → Result A E → Action S E B
follow f (ok a) s = f a s
follow f (err e) s = (err e, s)

infixl 5 ◌>>=◌ ◌>>◌
abbrev pub ◌>>=◌ : {S E A B : Type 0} → Action S E A → (A → Action S E B) → Action S E B
◌>>=◌ m f s = follow f (m s).0 (m s).1

abbrev pub ◌>>◌ : {S E A B : Type 0} → Action S E A → Action S E B → Action S E B
m >> k = m >>= λ _. k

abbrev pub pure : {S E A : Type 0} → A → Action S E A
pure a s = (ok a, s)

abbrev pub raise : {S E A : Type 0} → E → Action S E A
raise e s = (err e, s)

-- `.map_err(f)`.
abbrev pub with_error : {E F A : Type 0} → (E → F) → Result A E → Result A F
with_error f (ok a) = ok a
with_error f (err e) = err (f e)

abbrev pub map_err : {S E F A : Type 0} → (E → F) → Action S E A → Action S F A
map_err f m s = (with_error f (m s).0, (m s).1)
