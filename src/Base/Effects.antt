-- ===== src/Base/Effects.antt =====
-- Calls of an outer world: each takes the world's state and returns the next, and what it answers
-- may be an error. An error is the text of its message.
use mathlib.Core.Path.{◌≡◌, refl}
use mathlib.Core.Option.{Option, none, some}
use Prim.Native.String.{String}

abbrev pub Error : Type 0
Error = String

pub data Try {ℓ} (A : Type ℓ) : Type ℓ where
  ok : A → Try A
  throw : Error → Try A

-- A call that cannot fail, such as reading the clock, and one that can.
abbrev pub Ask : Type 0 → Type 0 → Type 0
Ask S A = S → A × S

abbrev pub Call : Type 0 → Type 0 → Type 0
Call S A = S → Try A × S

-- What a call answers that has nothing to say.
abbrev pub Done : Type 0
Done = Unit {0}

-- A chain of calls stops at the first that throws.
infixl 5 ◌>>=◌ ◌>>◌
abbrev pub ◌>>=◌ : {S A B : Type 0} → Call S A → (A → Call S B) → Call S B
◌>>=◌ m f s = let (r, s') = m s in elim r [ ok a ↦ f a s' | throw e ↦ (throw e, s') ]

abbrev pub ◌>>◌ : {S B : Type 0} → Call S Done → Call S B → Call S B
m >> k = m >>= λ _. k

abbrev pub answer : {S A : Type 0} → Try A → Call S A
answer r s = (r, s)

-- A property of a chain, from the case in which its first call throws and that in which the rest
-- is run.
pub >>=-elim {ℓ} :
    {S A B : Type 0} (P : Try B × S → Type ℓ) (m : Call S A) (f : A → Call S B) (s : S)
    → ((e : Error) → (m s).0 ≡ throw e → P (throw e, (m s).1))
    → ((a : A) → (m s).0 ≡ ok a → P (f a (m s).1))
    → P ((m >>= f) s)
>>=-elim {S} {A} {B} P m f s failed went = go (m s).0 refl
  where
    go :
        (r : Try A) → (m s).0 ≡ r → P (elim r [ ok a ↦ f a (m s).1 | throw e ↦ (throw e, (m s).1) ])
    go (ok a) e = went a e
    go (throw x) e = failed x e

-- The same for plain results, without a world.
abbrev pub and_then {ℓ κ} : {A : Type ℓ} {B : Type κ} → Try A → (A → Try B) → Try B
and_then (ok a) f = f a
and_then (throw e) f = throw e

abbrev pub or_throw {ℓ} : {A : Type ℓ} → Option A → Error → Try A
or_throw (some a) e = ok a
or_throw none e = throw e

pub and_then-eq-ok {ℓ κ} :
    {A : Type ℓ} {B : Type κ} (m : Try A) (f : A → Try B) {b : B}
    → and_then m f ≡ ok b
    → (a : A) × (m ≡ ok a) × (f a ≡ ok b)
and_then-eq-ok (ok a) f h = (a, refl, h)
and_then-eq-ok (throw e) f h = cc

pub or_throw-eq-ok {ℓ} :
    {A : Type ℓ} (o : Option A) (e : Error) {a : A} → or_throw o e ≡ ok a → o ≡ some a
or_throw-eq-ok none e h = cc
or_throw-eq-ok (some a) e h = cc

pub ok-injective {ℓ} : {A : Type ℓ} {a b : A} → ◌≡◌ {A = Try A} (ok a) (ok b) → a ≡ b
ok-injective h = cc

-- A call that answers leaves `Q` and `I`, and one that throws leaves `I`.
abbrev pub Gives : {S A : Type 0} → (A → Type 0) → (S → Type 0) → Try A × S → Type 0
Gives Q I (ok a, s) = Q a × I s
Gives Q I (throw e, s) = I s

pub >>=-Gives :
    {S A B : Type 0} (Q : A → Type 0) (Q' : B → Type 0) (I : S → Type 0) (m : Call S A)
    (f : A → Call S B) (s : S)
    → Gives Q I (m s)
    → ((a : A) (s' : S) → Q a → I s' → Gives Q' I (f a s'))
    → Gives Q' I ((m >>= f) s)
>>=-Gives {S} {A} {B} Q Q' I m f s h k = go (m s).0 (m s).1 h
  where
    go :
        (r : Try A) (s' : S)
        → Gives Q I (r, s')
        → Gives Q' I (elim r [ ok a ↦ f a s' | throw e ↦ (throw e, s') ])
    go (ok a) s' (q, i) = k a s' q i
    go (throw e) s' i = i

pub some-injective {ℓ} : {A : Type ℓ} {a b : A} → ◌≡◌ {A = Option A} (some a) (some b) → a ≡ b
some-injective h = cc
