-- ===== src/Errors.antt =====
-- Errors as values: what the API server answers, Go's error values, and results.
use ipman.Prelude.{String, Bool, true, false, ◌≡◌, refl, ◌⊎◌, inl, inr}

-- What apierrors tells apart of an answer of the API server.
pub data ApiError : Type 0 where
  conflict not_found already_exists refused : ApiError

-- An error of the API server, a RequestError of the controller, and the errors of fmt.Errorf
-- without and with `%w`.
pub data GoError : Type 0 where
  api : ApiError → GoError
  request_error : String → String → GoError → GoError
  message : String → GoError
  wrapped : String → GoError → GoError
  -- ConnectionRestartError, of a connection and a child
  connection_restart : String → String → GoError

-- `panics` is a Go panic.
pub data Try {ℓ} (A : Type ℓ) : Type ℓ where
  done : A → Try A
  fails : GoError → Try A
  panics : Try A

pub Try-cases {ℓ} :
    {A : Type ℓ} (t : Try A)
    → ((a : A) × (t ≡ done a)) ⊎ (((e : GoError) × (t ≡ fails e)) ⊎ (t ≡ panics))
Try-cases (done a) = inl (a, refl)
Try-cases (fails e) = inr (inl (e, refl))
Try-cases panics = inr (inr refl)

infixl 5 ◌>>=◌
abbrev pub ◌>>=◌ {ℓ κ} : {A : Type ℓ} {B : Type κ} → Try A → (A → Try B) → Try B
done a >>= f = f a
fails e >>= f = fails e
panics >>= f = panics

pub bind-done :
    {A B : Type 0} (t : Try A) (f : A → Try B) (b : B)
    → (t >>= f) ≡ done b
    → (a : A) × (t ≡ done a) × (f a ≡ done b)
bind-done (done a) f b h = (a, refl, h)
bind-done (fails e) f b h = cc
bind-done panics f b h = cc

-- if err != nil { return nil, &RequestError{…} }
abbrev pub as_request {ℓ} : {A : Type ℓ} → String → String → Try A → Try A
as_request action resource (done a) = done a
as_request action resource (fails e) = fails (request_error action resource e)
as_request action resource panics = panics

-- if err != nil { return nil, fmt.Errorf("…: %w", err) }
abbrev pub as_wrapped {ℓ} : {A : Type ℓ} → String → Try A → Try A
as_wrapped text (done a) = done a
as_wrapped text (fails e) = fails (wrapped text e)
as_wrapped text panics = panics

pub unwrapped :
    {A : Type 0} (text : String) (t : Try A) (b : A) → as_wrapped text t ≡ done b → t ≡ done b
unwrapped text (done a) b h = h
unwrapped text (fails e) b h = cc
unwrapped text panics b h = cc

-- apierrors.IsNotFound
unfoldable pub is_not_found : GoError → Bool
is_not_found (api not_found) = true
is_not_found (wrapped text e) = is_not_found e
is_not_found _ = false

-- _, ok := err.(*ConnectionRestartError), which does not look through `%w`.
abbrev pub is_restart_error : GoError → Bool
is_restart_error (connection_restart conn child) = true
is_restart_error _ = false

-- apierrors.IsConflict, which looks through `%w`; a RequestError does not unwrap.
unfoldable pub is_conflict : GoError → Bool
is_conflict (api conflict) = true
is_conflict (wrapped text e) = is_conflict e
is_conflict _ = false
