-- ===== src/Client/Subjects/Routing.antt =====
-- A subject tells which operation, mailbox and message it stands for.
use mq.Base.{Text, ℤ, [], ◌∷◌, ◌++◌, All, ◌≡◌, ◌≢◌, refl}
use mq.Base.Decimal.{str_int}
use mq.Base.Decimal.Parse.{str_int-injective, str_int-no_dot}
use mq.Client.Subjects.{subject_msg_delete}

no_dot_suffix : (x : Text) (b y : Text) → All (λ c. c ≢ b'.') x → x ≢ b ++ (b'.' ∷ y)
no_dot_suffix [] [] y h e = cc
no_dot_suffix [] (d ∷ b) y h e = cc
no_dot_suffix (c ∷ x) [] y h e = h.0 (cc)
no_dot_suffix (c ∷ x) (d ∷ b) y h e = no_dot_suffix x b y h.1 (cc)

-- The last dot is where the message id begins.
last_dot :
    (a x b y : Text)
    → All (λ c. c ≢ b'.') x
    → All (λ c. c ≢ b'.') y
    → a ++ (b'.' ∷ x) ≡ b ++ (b'.' ∷ y)
    → (a ≡ b) × (x ≡ y)
last_dot [] x [] y h k e = (refl, cc)
last_dot [] x (d ∷ b) y h k e = absurd (no_dot_suffix x b y h (cc))
last_dot (c ∷ a) x [] y h k e = absurd (no_dot_suffix y a x k (cc))
last_dot (c ∷ a) x (d ∷ b) y h k e = let (p, q) = last_dot a x b y h k (cc) in (cc, q)

-- A DELETE subject determines the mailbox and the message id, an integer, although an address may
-- hold dots.
pub subject_msg_delete-injective :
    (a b : Text) (i j : ℤ)
    → subject_msg_delete a (str_int i) ≡ subject_msg_delete b (str_int j)
    → (a ≡ b) × (i ≡ j)
subject_msg_delete-injective a b i j e =
    let (p, q) = last_dot a (str_int i) b (str_int j) (str_int-no_dot i) (str_int-no_dot j) (cc) in
    (p, str_int-injective i j q)
