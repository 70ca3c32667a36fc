-- ===== src/Exec/Triple.antt =====
-- Rules for what an action keeps and what its result satisfies.
use openshift_upgrade_contro.Prelude.{
  ◌≡◌, refl, String, Bool, true, false, Option, none, some, List, ◌∷◌,
}
use openshift_upgrade_contro.Exec.{
  Error, Result, ok, err, Request, read_clock, Response, History, Server, Clock, M, pure, raise,
  lift, attempt, context, ◌>>=◌, continue, send, read_now, when◌then◌else◌, match_option,
  match_result, add_context, return_errors, combine,
}

-- A statement about the value, if there is one.
abbrev pub Holds : {A : Type 0} → (A → Type 0) → Result A → Type 0
Holds Q (ok a) = Q a
Holds Q (err e) = Unit

-- From a history that satisfies `P` the action leaves one that does, whether it returns or fails,
-- and what it returns satisfies `Q`.
pub record Triple {A : Type 0} (P : History → Type 0) (m : M A) (Q : A → Type 0) : Type 0 where
  pub at : (h : History) → P h → P (m h).1 × Holds Q (m h).0

abbrev pub Any : {A : Type 0} → A → Type 0
Any a = Unit

Holds-add_context :
    {A : Type 0} (Q : A → Type 0) (s : String) (r : Result A)
    → Holds Q r
    → Holds Q (add_context s r)
Holds-add_context Q s (ok a) q = q
Holds-add_context Q s (err e) q = tt

pub Holds-Any : {A : Type 0} (r : Result A) → Holds (Any {A = A}) r
Holds-Any (ok a) = tt
Holds-Any (err e) = tt

module _ {A : Type 0} {P : History → Type 0} {Q : A → Type 0} where
  pub Triple-pure : (a : A) → Q a → Triple P (pure a) Q
  unfolding pure
  Triple-pure a q = record { at = λ h p. (p, q) }

  pub Triple-raise : (e : Error) → Triple P (raise e) Q
  unfolding raise
  Triple-raise e = record { at = λ h p. (p, tt) }

  pub Triple-lift : (r : Result A) → Holds Q r → Triple P (lift r) Q
  unfolding lift
  Triple-lift r q = record { at = λ h p. (p, q) }

  pub Triple-context : (s : String) (m : M A) → Triple P m Q → Triple P (context s m) Q
  unfolding context
  Triple-context s m t = record {
    at = λ h p. let (p', q) = t.at h p in (p', Holds-add_context Q s (m h).0 q);
  }

  pub Triple-attempt : (m : M A) → Triple P m Q → Triple P (attempt m) (Holds Q)
  unfolding attempt
  Triple-attempt m t = record { at = λ h p. let (p', q) = t.at h p in (p', q) }

  pub Triple-when :
      (b : Bool) (m n : M A)
      → (b ≡ true → Triple P m Q)
      → (b ≡ false → Triple P n Q)
      → Triple P (when b then m else n) Q
  unfolding when◌then◌else◌
  Triple-when true m n km kn = km refl
  Triple-when false m n km kn = kn refl

module _ {A B : Type 0} {P : History → Type 0} {R : B → Type 0} where
  pub Triple-option :
      (o : Option A) (m : M B) (f : A → M B)
      → (o ≡ none → Triple P m R)
      → ((a : A) → o ≡ some a → Triple P (f a) R)
      → Triple P (match_option o m f) R
  unfolding match_option
  Triple-option none m f km kf = km refl
  Triple-option (some a) m f km kf = kf a refl

  pub Triple-result :
      (Q : A → Type 0) (r : Result A) (m : Error → M B) (f : A → M B)
      → Holds Q r
      → ((e : Error) → Triple P (m e) R)
      → ((a : A) → Q a → Triple P (f a) R)
      → Triple P (match_result r m f) R
  unfolding match_result
  Triple-result Q (err e) m f q km kf = km e
  Triple-result Q (ok a) m f q km kf = kf a q

  continue-Post :
      (Q : A → Type 0) (f : A → M B) (r : Result A) (h : History)
      → P h
      → Holds Q r
      → ((a : A) → Q a → Triple P (f a) R)
      → P (continue r f h).1 × Holds R (continue r f h).0
  continue-Post Q f (ok a) h p q kf = (kf a q).at h p
  continue-Post Q f (err e) h p q kf = (p, tt)

  pub Triple-bind :
      (Q : A → Type 0) (m : M A) (f : A → M B)
      → Triple P m Q
      → ((a : A) → Q a → Triple P (f a) R)
      → Triple P (m >>= f) R
  unfolding ◌>>=◌
  Triple-bind Q m f km kf = record {
    at = λ h p. let (p', q) = km.at h p in continue-Post Q f (m h).0 (m h).1 p' q kf;
  }

pub Holds-both :
    {A : Type 0} (Q R : A → Type 0) (r : Result A)
    → Holds Q r
    → Holds R r
    → Holds (λ a. Q a × R a) r
Holds-both Q R (ok a) q k = (q, k)
Holds-both Q R (err e) q k = tt

Holds-map :
    {A : Type 0} (Q R : A → Type 0) (r : Result A) → ((a : A) → Q a → R a) → Holds Q r → Holds R r
Holds-map Q R (ok a) w q = w a q
Holds-map Q R (err e) w q = tt

pub Triple-weaken :
    {A : Type 0} {P : History → Type 0} (Q R : A → Type 0) (m : M A)
    → ((a : A) → Q a → R a)
    → Triple P m Q
    → Triple P m R
Triple-weaken Q R m w t = record {
  at = λ h p. let (p', q) = t.at h p in (p', Holds-map Q R (m h).0 w q);
}

-- What the server answers to a request, by a hypothesis on the server.
abbrev pub Answers : Server → (r : Request) → (Response r → Type 0) → Type 0
Answers server r Q = (h : History) → Holds Q (server h r)

module _ {P : History → Type 0} (server : Server) where
  -- What the server answers may depend on what holds of the requests before.
  pub Triple-send_after :
      (r : Request) (Q : Response r → Type 0)
      → ((h : History) → P h → P (r ∷ h))
      → ((h : History) → P h → Holds Q (server h r))
      → Triple P (send server r) Q
  unfolding send
  Triple-send_after r Q keep answers = record { at = λ h p. (keep h p, answers h p) }

  pub Triple-send :
      (r : Request) (Q : Response r → Type 0)
      → ((h : History) → P h → P (r ∷ h))
      → Answers server r Q
      → Triple P (send server r) Q
  Triple-send r Q keep answers = Triple-send_after r Q keep (λ h p. answers h)

  pub Triple-send-Any :
      (r : Request) → ((h : History) → P h → P (r ∷ h)) → Triple P (send server r) Any
  Triple-send-Any r keep = Triple-send r Any keep (λ h. Holds-Any (server h r))

pub Triple-read_now :
    {P : History → Type 0} (clock : Clock)
    → ((h : History) → P h → P (read_clock ∷ h))
    → Triple P (read_now clock) Any
unfolding read_now
Triple-read_now clock keep = record { at = λ h p. (keep h p, tt) }

pub Holds-shown : {A : Type 0} (r : Result A) → Holds (λ a. r ≡ ok a) r
Holds-shown (ok a) = refl
Holds-shown (err e) = tt

-- The answer is one that the server gives.
pub Triple-send_shown :
    {P : History → Type 0} (server : Server) (r : Request)
    → ((h : History) → P h → P (r ∷ h))
    → Triple P (send server r) (λ a. (h : History) × (server h r ≡ ok a))
unfolding send
Triple-send_shown server r keep = record {
  at = λ h p. (
    keep h p,
    Holds-map (λ a. server h r ≡ ok a) (λ a. (h' : History) × (server h' r ≡ ok a)) (server h r)
        (λ a e. (h, e)) (Holds-shown (server h r)),
  );
}

-- The answer, also an error, is one that the server gives.
pub Triple-attempt-send :
    {P : History → Type 0} (server : Server) (r : Request)
    → ((h : History) → P h → P (r ∷ h))
    → Triple P (attempt (send server r)) (λ a. (h : History) × (server h r ≡ a))
unfolding attempt send
Triple-attempt-send server r keep = record { at = λ h p. (keep h p, (h, refl)) }

-- The instant is one that the clock shows.
pub Triple-read_now_shown :
    {P : History → Type 0} (clock : Clock)
    → ((h : History) → P h → P (read_clock ∷ h))
    → Triple P (read_now clock) (λ now. (h : History) × (now ≡ clock h))
unfolding read_now
Triple-read_now_shown clock keep = record { at = λ h p. (keep h p, (h, refl)) }

pub Triple-return_errors :
    {P : History → Type 0} (es : List Error) → Triple P (return_errors es) Any
unfolding return_errors
Triple-return_errors es =
    Triple-option (combine es) (pure tt) raise (λ _. Triple-pure tt tt) (λ e _. Triple-raise e)
