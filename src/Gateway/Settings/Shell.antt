-- ===== src/Gateway/Settings/Shell.antt =====
-- The addresses in the install commands stand within double quotes of a shell.
use warp_insight.Prelude.{
  ℕ, ◌≡◌, refl, Bool, true, false, not, ◌||◌, ◌==◌, if◌then◌else◌, Option, none, some, [], ◌∷◌,
  ◌++◌, arith, Bool-cases, inl, inr,
}
use warp_insight.Prelude.Text.{Text, text, text_eq}
use warp_insight.Prelude.Results.{ok, then-inv, guard-inv}
use warp_insight.Gateway.Settings.{
  AdminConfig, FileKind, any, is_shell_metacharacter, contains_shell_metacharacters,
  require_non_empty, require_https_url, validate, supported_agent_arch, install_script_url,
}
use warp_insight.Gateway.Install.{install_script_signature_url}
use mathlib.Core.Option

any-append : (test : ℕ → Bool) (s t : Text) → any test (s ++ t) ≡ (any test s || any test t)
any-append test [] t = refl
any-append test (c ∷ s) t = ground (arith, any-append test s t)

not-true : {b : Bool} → not b ≡ true → b ≡ false
not-true {b = true} h = cc
not-true {b = false} h = refl

https-inv :
    (field value : Text)
    → require_https_url field value ≡ ok tt
    → contains_shell_metacharacters value ≡ false
unfolding require_https_url
https-inv field value h =
    let (given, rest) = then-inv (require_non_empty field value) _ tt h in
    let (secure, last) = then-inv _ _ tt rest in not-true (guard-inv _ _ last)

validate-inv :
    (files : Text → FileKind) (c : AdminConfig)
    → validate files c ≡ ok tt
    → require_https_url (text "server.public_base_url") c.public_base_url ≡ ok tt
unfolding validate
validate-inv files c h =
    let (listens, rest) =
      then-inv (require_non_empty (text "server.listen_addr") c.listen_addr) _ tt h in
    (then-inv (require_https_url (text "server.public_base_url") c.public_base_url) _ tt rest).0

-- What a shell reads after a double quote, up to the next one, and what follows; none where it would
-- expand or escape something: at a dollar sign, a backtick or a backslash, and, in an interactive
-- shell, at an exclamation mark.
unfoldable pub double_quoted : Text → Option (Text × Text)
double_quoted [] = none
double_quoted (c ∷ t) =
    if c == 34
    then some ([], t)
    else if c == 36 || c == 96 || c == 92 || c == 33
    then none
    else Option.map (λ r. (c ∷ r.0, r.1)) (double_quoted t)

either_false : {a b : Bool} → (a || b) ≡ false → (a ≡ false) × (b ≡ false)
either_false {a = true} h = cc
either_false {a = false} h = (refl, h)

-- What the test says of the characters that the reader asks about.
is_shell_metacharacter-false :
    (c : ℕ)
    → is_shell_metacharacter c ≡ false
    → ((c == 34) ≡ false) × ((c == 36 || c == 96 || c == 92 || c == 33) ≡ false)
unfolding is_shell_metacharacter
is_shell_metacharacter-false c h = ground arith

double_quoted-append :
    (t rest : Text)
    → contains_shell_metacharacters t ≡ false
    → double_quoted (t ++ (34 ∷ rest)) ≡ some (t, rest)
unfolding double_quoted contains_shell_metacharacters is_shell_metacharacter
double_quoted-append [] rest h = refl
double_quoted-append (c ∷ t) rest h =
    let (this, others) = either_false h in
    let (no_quote, no_expansion) = is_shell_metacharacter-false c this in
    rw (no_quote, no_expansion, double_quoted-append t rest others) refl

install_script_url-plain :
    (files : Text → FileKind) (c : AdminConfig) (arch supported : Text)
    → validate files c ≡ ok tt
    → supported_agent_arch arch ≡ some supported
    → contains_shell_metacharacters (install_script_url c supported) ≡ false
unfolding install_script_url contains_shell_metacharacters supported_agent_arch
install_script_url-plain files c arch supported h a =
    let base =
      https-inv (text "server.public_base_url") c.public_base_url (validate-inv files c h) in
    rw
      (
        any-append is_shell_metacharacter c.public_base_url
            (text "/api/v1/agent/install/" ++ (supported ++ text "/install.sh")),
        base,
      )
      (elim (Bool-cases (text_eq arch (text "x86"))) [
        | inl x ↦ let e : supported ≡ text "x86" = ground (arith, x, a) in rw e refl
        | inr n ↦ elim (Bool-cases (text_eq arch (text "arm"))) [
          | inl y ↦ let e : supported ≡ text "arm" = ground (arith, n, y, a) in rw e refl
          | inr k ↦ absurd (ground (arith, n, k, a))
        ]
      ])

-- In a configuration that is accepted, the addresses of the install script of a supported
-- architecture and of its signature are read by a shell, between the double quotes in which the
-- install command has them, as they are: nothing is expanded, and the closing quote ends them.
pub double_quoted-install_script_url :
    (files : Text → FileKind) (c : AdminConfig) (arch supported rest : Text)
    → validate files c ≡ ok tt
    → supported_agent_arch arch ≡ some supported
    → (double_quoted (install_script_url c supported ++ (34 ∷ rest))
        ≡ some (install_script_url c supported, rest))
      × (double_quoted
            (install_script_signature_url (install_script_url c supported) ++ (34 ∷ rest))
          ≡ some (install_script_signature_url (install_script_url c supported), rest))
unfolding install_script_signature_url contains_shell_metacharacters
double_quoted-install_script_url files c arch supported rest h a =
    let url = install_script_url c supported in
    let plain = install_script_url-plain files c arch supported h a in
    (
      double_quoted-append url rest plain,
      double_quoted-append (url ++ text ".sig") rest
          (rw (any-append is_shell_metacharacter url (text ".sig"), plain) refl),
    )
