-- ===== src/Worker/Store/Ends.antt =====
-- A logic for the processors: how the store before and the store after are related whatever
-- happens, and what holds of an answer.
use vahan.Worker.Store.{World, Thrown, Outcome, done, thrown, Action, final, continue, recover}
use vahan.Prelude.{◌≡◌, subst, Bool, true, false, if◌then◌else◌}

-- The store stands in the relation to what it was, and an answer has the property.
pub data Ends {A : Type 0} (R : World → World → Type 0) (P : A → World → Type 0) (w : World)
    : Outcome A → Type 0 where
  ends_done : (a : A) (v : World) → R w v → P a v → Ends R P w (done a v)
  ends_thrown : (e : Thrown) (v : World) → R w v → Ends R P w (thrown e v)

pub Ends-final :
    {A : Type 0} {R : World → World → Type 0} {P : A → World → Type 0} {w : World} {o : Outcome A}
    → Ends R P w o
    → R w (final o)
Ends-final (ends_done a v r p) = r
Ends-final (ends_thrown e v r) = r

-- What holds of an answer that was given.
abbrev Holds : {A : Type 0} → (A → World → Type 0) → Outcome A → Type 0
Holds P (done a v) = P a v
Holds P (thrown e v) = Unit

Ends-Holds :
    {A : Type 0} {R : World → World → Type 0} {P : A → World → Type 0} {w : World} {o : Outcome A}
    → Ends R P w o
    → Holds P o
Ends-Holds (ends_done a v r p) = p
Ends-Holds (ends_thrown e v r) = tt

pub Ends-done :
    {A : Type 0} {R : World → World → Type 0} {P : A → World → Type 0} {w : World} {o : Outcome A}
    (a : A) (v : World)
    → o ≡ done a v
    → Ends R P w o
    → P a v
Ends-done {P = P} a v h e = subst (Holds P) h (Ends-Holds e)

-- What follows of an answer from the relation.
pub Ends-imp :
    {A : Type 0} {R : World → World → Type 0} {P P' : A → World → Type 0} {w : World}
    {o : Outcome A}
    → Ends R P w o
    → ((a : A) (v : World) → R w v → P a v → P' a v)
    → Ends R P' w o
Ends-imp (ends_done a v r p) imp = ends_done a v r (imp a v r p)
Ends-imp (ends_thrown e v r) imp = ends_thrown e v r

-- Both branches of a test.
pub if-Ends :
    {A : Type 0} {R : World → World → Type 0} {P : A → World → Type 0} {w : World} (b : Bool)
    (x y : Action A)
    → Ends R P w (x w)
    → Ends R P w (y w)
    → Ends R P w ((if b then x else y) w)
if-Ends true x y e d = e
if-Ends false x y e d = d

module _ (R : World → World → Type 0) (same : (w : World) → R w w)
    (along : (u v w : World) → R u v → R v w → R u w) where
  pub ends_from :
      {A : Type 0} {P : A → World → Type 0} (u v : World) {o : Outcome A}
      → R u v
      → Ends R P v o
      → Ends R P u o
  ends_from u v r (ends_done a w s p) = ends_done a w (along u v w r s) p
  ends_from u v r (ends_thrown e w s) = ends_thrown e w (along u v w r s)

  pub ends_pure :
      {A : Type 0} {P : A → World → Type 0} (a : A) (w : World) → P a w → Ends R P w (done a w)
  ends_pure a w p = ends_done a w (same w) p

  pub ends_throw :
      {A : Type 0} {P : A → World → Type 0} (e : Thrown) (w : World) → Ends R P w (thrown e w)
  ends_throw e w = ends_thrown e w (same w)

  pub ends_continue :
      {A B : Type 0} {Q : A → World → Type 0} {P : B → World → Type 0} {w : World}
      {rest : A → Action B} {o : Outcome A}
      → Ends R Q w o
      → ((a : A) (v : World) → Q a v → Ends R P v (rest a v))
      → Ends R P w (continue o rest)
  ends_continue {w = w} (ends_done a v r q) after = ends_from w v r (after a v q)
  ends_continue (ends_thrown e v r) after = ends_thrown e v r

  pub ends_recover :
      {A : Type 0} {P : A → World → Type 0} {w : World} {handler : Thrown → Action A}
      {o : Outcome A}
      → Ends R P w o
      → ((e : Thrown) (v : World) → Ends R P v (handler e v))
      → Ends R P w (recover o handler)
  ends_recover (ends_done a v r p) handled = ends_done a v r p
  ends_recover {w = w} (ends_thrown e v r) handled = ends_from w v r (handled e v)
