-- ===== src/Handlers/Accounts/Granting.antt =====
-- Which requests POSTServiceAccount lets through, and HasAllScopes.
use dashboard_site.Common.{
  ℕ, ◌≤◌, ◌≡◌, ◌↔◌, refl, sym, subst, String, true, false, not, ◌==◌, Option, none, some, List, [],
  ◌∷◌, arith, ltb, All, contains, trim_space,
}
use Prim.Native.String.{len}
use dashboard_site.Config.{Config}
use dashboard_site.Models.Principal.{
  User, Principal, user, service_account, user_scopes, get_scopes, has_scope,
}
use dashboard_site.Handlers.Http.{pass, require, or_refuse}
use dashboard_site.Handlers.Http.Checks.{bind-passes, or_refuse-passes, require-passes}
use dashboard_site.Handlers.Accounts.{
  AccountBody, has_all_scopes, as_user, is_none_of, check_account,
}

-- HasAllScopes finds exactly whether each scope that is asked for is among those that one has.
pub has_all_scopes_iff :
    (owned asked : List String)
    → (has_all_scopes owned asked ≡ true) ↔ All (λ s. contains s owned ≡ true) asked
unfolding has_all_scopes
has_all_scopes_iff owned [] = (λ e. tt, λ h. refl)
has_all_scopes_iff owned (s ∷ ss) =
    let rest = has_all_scopes_iff owned ss in
    (
      λ e. (ground arith, rest.0 (ground arith)),
      λ h. let tail = rest.1 h.1 in let head = h.0 in rw (head, tail) refl,
    )

module _ (cfg : Config) (who : Option Principal) (body : Option AccountBody) (now : ℕ) where
  -- a user asks for a name, a time to come and scopes of the user's own
  pub record IsGranted (q : User × AccountBody × ℕ) : Type 0 where
    pub asker : who ≡ some (user q.0)
    pub asked : body ≡ some q.1
    pub named : (trim_space q.1.name == "") ≡ false
    pub short : len q.1.name ≤ 255
    pub scoped : is_none_of q.1.scopes ≡ false
    pub timed : q.1.token_expires_at ≡ some q.2
    pub future : now ≤ q.2
    pub own : All (λ s. has_scope cfg (user q.0) s ≡ true) q.1.scopes

  all_own :
      (u : User) (ss : List String)
      → has_all_scopes (user_scopes cfg u) ss ≡ true
      → All (λ s. has_scope cfg (user u) s ≡ true) ss
  unfolding has_scope get_scopes
  all_own u ss e = (has_all_scopes_iff (user_scopes cfg u) ss).0 e

  user_passes : (o : Option Principal) (u : User) → as_user o ≡ some u → o ≡ some (user u)
  user_passes none u e = absurd (cc)
  user_passes (some (user v)) u e = cc
  user_passes (some (service_account a)) u e = absurd (cc)

  pub check_account-IsGranted :
      (q : User × AccountBody × ℕ) → check_account cfg who body now ≡ pass q → IsGranted q
  unfolding check_account
  check_account-IsGranted q e =
      let (u, e1, k1) = bind-passes (or_refuse (as_user who) 401) _ q e in
      let (req, e2, k2) = bind-passes (or_refuse body 400) _ q k1 in
      let (v3, e3, k3) = bind-passes (require (not (trim_space req.name == "")) 400) _ q k2 in
      let (v4, e4, k4) = bind-passes (require (not (ltb 255 (len req.name))) 400) _ q k3 in
      let (v5, e5, k5) = bind-passes (require (not (is_none_of req.scopes)) 400) _ q k4 in
      let (expiry, e6, k6) = bind-passes (or_refuse req.token_expires_at 400) _ q k5 in
      let (v7, e7, k7) = bind-passes (require (not (ltb expiry now)) 400) _ q k6 in
      let (v8, e8, k8) =
        bind-passes (require (has_all_scopes (user_scopes cfg u) req.scopes) 403) _ q k7 in
      let same : q ≡ (u, req, expiry) = cc in
      let blank = require-passes _ 400 v3 e3 in
      let fits = require-passes _ 400 v4 e4 in
      let filled = require-passes _ 400 v5 e5 in
      let late = require-passes _ 400 v7 e7 in
      subst IsGranted (sym same) (record {
        asker = user_passes who u (or_refuse-passes (as_user who) 401 u e1);
        asked = or_refuse-passes body 400 req e2;
        named = ground arith;
        short = ground arith;
        scoped = ground arith;
        timed = or_refuse-passes req.token_expires_at 400 expiry e6;
        future = ground arith;
        own = all_own u req.scopes (require-passes _ 403 v8 e8);
      })
