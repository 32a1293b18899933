-- ===== src/Common/Effects.antt =====
-- Exceptions as values, the clock and the source of fresh identifiers.
use Prim.Native.Nat.{ℕ, ◌+◌}
use Prim.Native.String.{String}

-- What a call that may raise gives back.
pub data Result {ℓ} (E : Type ℓ) (A : Type ℓ) : Type ℓ where
  ok : A → Result E A
  err : E → Result E A

abbrev pub map_ok : {E A B : Type 0} → (A → B) → Result E A → Result E B
map_ok f (ok a) = ok (f a)
map_ok f (err e) = err e

-- `datetime.now(UTC)` gives one reading after the other, and so does `uuid.uuid4()`. Nothing is
-- assumed of the readings.
pub record Supply : Type 0 where
  pub clock : ℕ → ℕ
  pub uuids : ℕ → String
  pub reads : ℕ
  pub draws : ℕ

abbrev pub Io : Type 0 → Type 0
Io A = Supply → A × Supply

infixl 5 ◌>>=◌ ◌>>◌
abbrev pub ◌>>=◌ : {A B : Type 0} → Io A → (A → Io B) → Io B
◌>>=◌ m f s = let (a, s') = m s in f a s'

abbrev pub ◌>>◌ : {A B : Type 0} → Io A → Io B → Io B
m >> k = m >>= λ _. k

abbrev pub pure : {A : Type 0} → A → Io A
pure a s = (a, s)

-- `datetime.now(UTC)`
abbrev pub now : Io ℕ
now s = (s.clock s.reads, record s { reads = s.reads + 1 })

-- `str(uuid.uuid4())`
abbrev pub uuid4 : Io String
uuid4 s = (s.uuids s.draws, record s { draws = s.draws + 1 })
