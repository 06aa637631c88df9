-- ===== src/Services/Ends.antt =====
-- Rules for what holds of the answer and the world when a chain of steps succeeds.
use piscis_engine.Prelude.{ℕ, ◌≡◌, refl, sym, ap, Option, Text, arith}
use piscis_engine.Model.{Metadata, EventType}
use piscis_engine.Store.{Result, ok, err}
use piscis_engine.Store.Messages.{insert_pool_message_ext}
use piscis_engine.Services.Base.{World, M, after, ◌>>=◌, pure, try_write}

-- If the steps succeed from the world, the answer and the world after them satisfy the predicate.
pub record Ends {A : Type 0} (m : M A) (w : World) (Q : A → World → Type 0) : Type 0 where
  pub post : (a : A) → (m w).0 ≡ ok a → Q a (m w).1

after-Ends :
    {A B : Type 0} (r : Result A × World) (f : A → M B) (Q : B → World → Type 0)
    → ((a : A) → r.0 ≡ ok a → Ends (f a) r.1 Q)
    → (b : B) → (after r f).0 ≡ ok b
    → Q b (after r f).1
after-Ends (ok a, v) f Q h b e = (h a refl).post b e
after-Ends (err e', v) f Q h b e = ground arith

pub bind-Ends :
    {A B : Type 0} {m : M A} {f : A → M B} {w : World} (R : A → World → Type 0)
    {Q : B → World → Type 0}
    → Ends m w R
    → ((a : A) (v : World) → R a v → Ends (f a) v Q)
    → Ends (m >>= f) w Q
bind-Ends {m} {f} {w} R {Q} em h = record {
  post = after-Ends (m w) f Q λ a e. h a (m w).1 (em.post a e);
}

abbrev value_or : {A : Type 0} → A → Result A → A
value_or a (ok b) = b
value_or a (err e) = a

pub pure-Ends :
    {A : Type 0} (a : A) {w : World} {Q : A → World → Type 0} → Q a w → Ends (pure a) w Q
pure-Ends a {w} {Q} q = record { post = λ b e. rw (sym (ap (value_or a) e)) q }

-- A message leaves the todos alone.
pub message-Ends :
    (now : ℕ) (pool sender content kind : Text) (m : Metadata) (t : Option Text) (r : Option ℕ)
    (e : Option EventType) (w : World)
    → Ends
        (try_write (insert_pool_message_ext now pool sender content kind m t r e))
        w
        λ _ v. v.db.todos ≡ w.db.todos
unfolding insert_pool_message_ext
message-Ends now pool sender content kind m t r e w = record { post = λ a done. ground arith }
