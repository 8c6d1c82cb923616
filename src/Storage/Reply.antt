-- ===== src/Storage/Reply.antt =====
-- Fallible code on a state, which a failure keeps as it is at that point.

-- An error that is returned, a panic, or (of this model only) want of fuel.
pub data Fault : Type 0 where
  error panicked exhausted : Fault

pub data Reply (A : Type 0) : Type 0 where
  done : A → Reply A
  failed : Fault → Reply A

abbrev pub after : {S A B : Type 0} → S × Reply A → (A → S → S × Reply B) → S × Reply B
after (s, done a) f = f a s
after (s, failed x) f = (s, failed x)

infixl 5 ◌>>=◌ ◌>>◌
abbrev pub ◌>>=◌ : {S A B : Type 0} → (S → S × Reply A) → (A → S → S × Reply B) → S → S × Reply B
◌>>=◌ m f s = after (m s) f

abbrev pub ◌>>◌ : {S B : Type 0} → (S → S × Reply (Unit {0})) → (S → S × Reply B) → S → S × Reply B
◌>>◌ m k s = after (m s) (λ _. k)

abbrev pub pure : {S A : Type 0} → A → S → S × Reply A
pure a s = (s, done a)

abbrev pub fail : {S A : Type 0} → Fault → S → S × Reply A
fail x s = (s, failed x)

abbrev pub get : {S : Type 0} → S → S × Reply S
get s = (s, done s)

abbrev pub modify : {S : Type 0} → (S → S) → S → S × Reply (Unit {0})
modify f s = (f s, done tt)
