-- ===== src/Redis/Yields.antt =====
-- The case rules for calls: a property of whatever a run of calls returns, if it returns.
use leverage_agnet.Redis.{pure, Io, ◌>>=◌, and_then}
use leverage_agnet.Common.{
  ap, refl, if_cases, if◌then◌else◌, ◌≡◌, Option, Bool, false, true, some, none,
}

abbrev pub Yields : {B : Type 0} → (B → Type 0) → Option B → Type 0
Yields P none = Unit {0}
Yields P (some b) = P b

Yields-and_then :
    {R B C : Type 0} (P : C → Type 0) (o : Option B) (r : R) (f : B → Io R C)
    → ((b : B) → Yields P (f b r).0)
    → Yields P (and_then o r f).0
Yields-and_then P none r f h = tt
Yields-and_then P (some b) r f h = h b

-- What holds of the second call in every state after any answer of the first holds of both.
pub Yields-bind :
    {R B C : Type 0} (P : C → Type 0) (m : Io R B) (f : B → Io R C) (r : R)
    → ((b : B) (r' : R) → Yields P (f b r').0)
    → Yields P ((m >>= f) r).0
Yields-bind P m f r h = Yields-and_then P (m r).0 (m r).1 f (λ b. h b (m r).1)

pub Yields-if :
    {R C : Type 0} (P : C → Type 0) (b : Bool) (x y : Io R C) (r : R)
    → (b ≡ true → Yields P (x r).0)
    → (b ≡ false → Yields P (y r).0)
    → Yields P ((if b then x else y) r).0
Yields-if P b x y r = if_cases (λ m. Yields P (m r).0) b x y

-- A call that answers hands its answer on.
pub answers :
    {R B C : Type 0} (m : Io R B) (f : B → Io R C) (r r' : R) (b : B)
    → m r ≡ (some b, r')
    → (m >>= f) r ≡ f b r'
answers m f r r' b h = rw h refl

-- A value that is returned last leaves the state.
pub and_then-pure :
    {R B C : Type 0} (o : Option B) (r : R) (v : C) → (and_then o r (λ (_ : B). pure v)).1 ≡ r
and_then-pure none r v = refl
and_then-pure (some b) r v = refl

-- The state after a call that answers is its own second part.
pub returns :
    {R B : Type 0} (m : Io R B) (r : R) (b : B) → (m r).0 ≡ some b → m r ≡ (some b, (m r).1)
returns m r b h = ap (λ o. (o, (m r).1)) h
