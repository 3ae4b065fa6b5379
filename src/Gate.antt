-- ===== src/Gate.antt =====
-- apps/web/lib/gate.ts: which pages a visitor may see, and where a sign-in leads. Of the account, only
-- whether there is one matters. `encodeURIComponent` is the parameter `encode`.
use Prim.Native.String.{◌++◌ as ◌<>◌}
use text.Mathlib.TextLemmas.{cons-append, nil-append}
use step_by_step.Common.{
  String, Char, code, ◌==◌, ◌≡◌, ◌≢◌, refl, ◌∙◌, ap, sym, Bool, true, false, ◌&&◌, ◌||◌, not, inl,
  inr, Bool-cases, Option, none, some, arith, if◌then◌else◌, eqb,
}

pub data Role : Type 0 where
  owner admin member : Role

pub data GateResult : Type 0 where
  render : GateResult
  redirect : (to : String) → GateResult

abbrev pub sign_in_path : String
sign_in_path = "/signin"

abbrev pub home_path : String
home_path = "/workflows"

abbrev pub account_path : String
account_path = "/settings/account"

abbrev pub invitations_path : String
invitations_path = "/settings/organization/invitations"

-- What stands before the first question mark.
unfoldable pub path_of : String → String
path_of String.[] = ""
path_of (String.◌∷◌ c s) = if eqb (code c) b'?' then "" else String.◌∷◌ c (path_of s)

unfoldable pub is_auth_route : String → Bool
is_auth_route path = path == sign_in_path

-- `replaceAll("%2F", "/")`
unfoldable pub replace_slashes : String → String
replace_slashes (String.◌∷◌ a (String.◌∷◌ b (String.◌∷◌ c s))) =
    let found = String.◌∷◌ "/" (replace_slashes s) in
    let other = String.◌∷◌ a (replace_slashes (String.◌∷◌ b (String.◌∷◌ c s))) in
    if eqb (code a) b'%' && (eqb (code b) b'2' && eqb (code c) b'F') then found else other
replace_slashes s = s

-- A slash, and then neither a slash nor a backslash.
unfoldable pub is_own_path : String → Bool
is_own_path (String.◌∷◌ a String.[]) = eqb (code a) b'/'
is_own_path (String.◌∷◌ a (String.◌∷◌ b s)) =
    eqb (code a) b'/' && (not (eqb (code b) b'/') && not (eqb (code b) 92))
is_own_path _ = false

unfoldable pub landing_after_sign_in : Option String → String
unfolding is_own_path is_auth_route path_of
landing_after_sign_in none = home_path
landing_after_sign_in (some next) =
    if next == "" || (not (is_own_path next) || is_auth_route (path_of next))
    then home_path
    else next

abbrev is_member : Option Role → Bool
is_member (some Role.member) = true
is_member _ = false

module _ (encode : String → String) where
  unfoldable pub path_to_sign_in : String → String
  unfolding replace_slashes
  path_to_sign_in wanted = sign_in_path <> ("?next=" <> replace_slashes (encode wanted))

  unfoldable pub resolve_gate {ℓ} : {A : Type ℓ} → Option A → Option Role → String → GateResult
  unfolding path_to_sign_in is_auth_route path_of
  resolve_gate none role pathname =
      if is_auth_route (path_of pathname) then render else redirect (path_to_sign_in pathname)
  resolve_gate (some me) role pathname =
      if is_auth_route (path_of pathname)
      then redirect home_path
      else if path_of pathname == invitations_path && is_member role
      then redirect account_path
      else render

-- A slash alone, or a slash and then neither a slash nor a backslash.
pub data IsSitePath : String → Type 0 where
  top : (a : Char) → code a ≡ b'/' → IsSitePath (String.◌∷◌ a String.[])
  below :
      (a b : Char) (s : String)
      → code a ≡ b'/'
      → code b ≢ b'/'
      → code b ≢ 92
      → IsSitePath (String.◌∷◌ a (String.◌∷◌ b s))

path_of-plain :
    (c : Char) (s : String)
    → eqb (code c) b'?' ≡ false
    → path_of (String.◌∷◌ c s) ≡ String.◌∷◌ c (path_of s)
unfolding path_of
path_of-plain c s h = rw h refl

no_mark : String → Bool
no_mark String.[] = true
no_mark (String.◌∷◌ c s) = not (eqb (code c) b'?') && no_mark s

path_of_query :
    (path rest : String) → no_mark path ≡ true → path_of (path <> ("?next=" <> rest)) ≡ path
unfolding no_mark path_of
path_of_query String.[] rest h =
    ap path_of (nil-append ("?next=" <> rest) ∙ cons-append "?" "next=" rest)
path_of_query (String.◌∷◌ c path) rest h =
    ap path_of (cons-append c path ("?next=" <> rest))
    ∙ path_of-plain c (path <> ("?next=" <> rest)) (ground (arith, h))
    ∙ ap (String.◌∷◌ c) (path_of_query path rest (ground (arith, h)))

sign_in_renders :
    (encode : String → String) (wanted : String)
    → path_of (path_to_sign_in encode wanted) ≡ sign_in_path
unfolding path_to_sign_in no_mark
sign_in_renders encode wanted = path_of_query sign_in_path (replace_slashes (encode wanted)) refl

abbrev target : GateResult → String
target render = ""
target (redirect to) = to

-- A page that the gate redirects to is shown: no redirect leads to another one.
pub resolve_gate-redirect {ℓ} :
    {A : Type ℓ} (encode : String → String) (me : Option A) (role : Option Role)
    (pathname to : String)
    → resolve_gate encode me role pathname ≡ redirect to
    → resolve_gate encode me role to ≡ render
unfolding resolve_gate is_auth_route path_of
resolve_gate-redirect encode none role pathname to e =
    elim (Bool-cases (is_auth_route (path_of pathname))) [
      | inl shown ↦ absurd (ground (arith, (rw (shown, resolve_gate) at e)))
      | inr hidden ↦
          let found : path_to_sign_in encode pathname ≡ to =
            ap target (rw (hidden, resolve_gate) at e) in
          let there : path_of to ≡ sign_in_path =
            ap path_of (sym found) ∙ sign_in_renders encode pathname in
          rw (there, resolve_gate) refl
    ]
resolve_gate-redirect encode (some me) role pathname to e =
    elim (Bool-cases (is_auth_route (path_of pathname))) [
      | inl signed_in ↦
          let found : home_path ≡ to = ap target (rw (signed_in, resolve_gate) at e) in
          rw (sym found) refl
      | inr other ↦
          let next = rw (other, resolve_gate) at e in
          elim (Bool-cases (path_of pathname == invitations_path && is_member role)) [
            | inl refused ↦
                let found : account_path ≡ to = ap target (rw refused at next) in
                rw (sym found) refl
            | inr fine ↦ absurd (ground (arith, (rw fine at next)))
          ]
    ]
