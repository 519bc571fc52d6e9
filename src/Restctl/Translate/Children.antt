-- ===== src/Restctl/Translate/Children.antt =====
-- What becomes of the options of a connection and of its children.
use ipman.Prelude.{
  All, get_or, String, ◌≡◌, refl, Bool, true, false, ◌&&◌, List, [], ◌∷◌, Option, none, some, Map,
  GoMap, elems, is_some, lookup, has_key, insert, contains, if◌then◌else◌,
}
use ipman.Errors.{Try, done, fails, panics, ◌>>=◌, as_wrapped}
use ipman.Api.{Child, IpSecConnectionSpec, ℤ}
use ipman.Restctl.Time.{codes, parse_int, or_error}
use ipman.Restctl.Translate.{
  single_proposal, ChildSaConfig, handled_keys, time_option, config_of, get_extra, translate,
}

abbrev pub is_done {ℓ} : {A : Type ℓ} → Try A → Bool
is_done (done a) = true
is_done (fails e) = false
is_done panics = false

-- Behind the loop a key that is not handled has the value that the options give it.
abbrev kept_option : List String → String → Map String → GoMap String → Option String
kept_option handled key extra m =
    if contains handled key
    then lookup key (elems m)
    else if has_key key extra
    then lookup key extra
    else lookup key (elems m)

abbrev after_one : List String → String → String → GoMap String → GoMap String
after_one handled j v m = if contains handled j then m else some (insert j v (elems m))

is_done-lem :
    {A : Type 0} (v : Option ℤ) (r t : Try ℤ) (f : ℤ → ℤ → ℤ → A) (a b c : String)
    → is_done (
        as_wrapped a (or_error v)
        >>= (λ x. as_wrapped b r >>= (λ y. as_wrapped c t >>= (λ z. done (f x y z)))))
      ≡ (is_some v && is_done r && is_done t)
is_done-lem none r t f a b c = refl
is_done-lem (some v) (fails e) t f a b c = refl
is_done-lem (some v) panics t f a b c = refl
is_done-lem (some v) (done r) (fails e) f a b c = refl
is_done-lem (some v) (done r) panics f a b c = refl
is_done-lem (some v) (done r) (done t) f a b c = refl

-- translate succeeds exactly if the version is read and, where they are given, both times.
translate-is_done :
    (s : IpSecConnectionSpec)
    → is_done (translate s) ≡ (
        is_some (parse_int (codes (get_extra s.extra "version" "2")))
        && is_done (time_option (lookup "rekey_time" s.extra))
        && is_done (time_option (lookup "reauth_time" s.extra)))
unfolding translate
translate-is_done s =
    is_done-lem (parse_int (codes (get_extra s.extra "version" "2")))
      (time_option (lookup "rekey_time" s.extra)) (time_option (lookup "reauth_time" s.extra))
      (config_of s) _ _ _

-- The fields that are set from the option of the same name.
abbrev pub text_options : ChildSaConfig → Map String
text_options sa =
    ("start_action", sa.start_action)
    ∷ ("rekey_time", sa.rekey_time)
    ∷ ("rand_packets", sa.rand_packets)
    ∷ ("updown", sa.updown)
    ∷ ("hostaccess", sa.hostaccess)
    ∷ ("policies", sa.policies)
    ∷ ("set_mark_in", sa.set_mark_in)
    ∷ ("set_mark_out", sa.set_mark_out)
    ∷ ("dpd_action", sa.dpd_action)
    ∷ ("close_action", sa.close_action)
    ∷ []

-- A child's configuration, where its options are a map: it has the child's addresses and, both
-- ways, its interface id; its mode and proposals; every field of an option has the option's value,
-- or is empty; another option is kept in the map, and no handled one is.
pub record IsTranslated (c : Child) (sa : ChildSaConfig) : Type 0 where
  pub addresses : (sa.local_ts ≡ c.local_ips) × (sa.remote_ts ≡ c.remote_ips)
  pub interface : (sa.in_interface_id ≡ c.xfrm_if_id) × (sa.out_interface_id ≡ c.xfrm_if_id)
  pub mode : sa.mode ≡ get_or "tunnel" (lookup "mode" (elems c.extra))
  pub proposals : sa.esp_proposals ≡ single_proposal (lookup "esp_proposals" (elems c.extra))
  pub texts :
      All (λ (o : String × String). o.1 ≡ get_or "" (lookup o.0 (elems c.extra))) (text_options sa)
  pub kept :
      (key : String)
      → lookup key (elems sa.extra)
        ≡ (if contains handled_keys key then none else lookup key (elems c.extra))
