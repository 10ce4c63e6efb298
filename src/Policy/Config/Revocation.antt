-- ===== src/Policy/Config/Revocation.antt =====
-- `revoke_caller` and `revoke_share_approval`: complete, idempotent, and never widening.
use hot_mem.Prelude.{String, ◌≡◌, refl, Bool, true, List, [], ◌∷◌, arith, ◌=ₛ◌, contains, map, ◌||◌}
use hot_mem.Policy.Grants.{ShareApproval, CallerCredential}
use hot_mem.Policy.Config.{revoke_shares, revoke_credential, revoke_credentials}

-- What the revocation makes of one approval.
abbrev pub revoke_if : Bool → ShareApproval → ShareApproval
revoke_if b s = record s { revoked = s.revoked || b }

module _ (hit : ShareApproval → Bool) where
  -- Every approval is kept in its place, and revoked if it was or if `hit` selects it.
  pub revoke_shares-map :
      (xs : List ShareApproval) → (revoke_shares hit xs).0 ≡ map (λ s. revoke_if (hit s) s) xs
  unfolding revoke_shares
  revoke_shares-map [] = refl
  revoke_shares-map (s ∷ rest) = ground (arith, revoke_shares-map rest)

  module _ (same : (s : ShareApproval) → hit (record s { revoked = true }) ≡ hit s) where
    -- A second pass finds nothing to revoke.
    pub revoke_shares_again :
        (xs : List ShareApproval)
        → revoke_shares hit (revoke_shares hit xs).0 ≡ ((revoke_shares hit xs).0, 0)
    unfolding revoke_shares
    revoke_shares_again [] = refl
    revoke_shares_again (s ∷ rest) = ground (arith, same s, revoke_shares_again rest)

-- What the revocation of a caller makes of one credential.
abbrev pub revoked_for : String → CallerCredential → CallerCredential
revoked_for caller cred = record cred {
  revoked = cred.revoked || cred.caller_id =ₛ caller;
  share_approvals = map (λ s. revoke_if (contains s.audience caller) s) cred.share_approvals;
}

module _ (caller : String) where
  pub revoke_credential-eq :
      (cred : CallerCredential) → (revoke_credential caller cred).0 ≡ revoked_for caller cred
  unfolding revoke_credential
  revoke_credential-eq cred =
      ground (arith, revoke_shares-map (λ s. contains s.audience caller) cred.share_approvals)

  pub revoke_credentials-map :
      (creds : List CallerCredential)
      → (revoke_credentials caller creds).0 ≡ map (revoked_for caller) creds
  unfolding revoke_credentials
  revoke_credentials-map [] = refl
  revoke_credentials-map (c ∷ rest) = cc (revoke_credential-eq c, revoke_credentials-map rest)

  revoke_credential_again :
      (cred : CallerCredential)
      → revoke_credential caller (revoke_credential caller cred).0
        ≡ ((revoke_credential caller cred).0, 0)
  unfolding revoke_credential
  revoke_credential_again cred = ground (
    arith,
    revoke_shares_again (λ s. contains s.audience caller) (λ s. refl) cred.share_approvals,
  )

  pub revoke_credentials_again :
      (creds : List CallerCredential)
      → revoke_credentials caller (revoke_credentials caller creds).0
        ≡ ((revoke_credentials caller creds).0, 0)
  unfolding revoke_credentials
  revoke_credentials_again [] = refl
  revoke_credentials_again (c ∷ rest) =
      ground (arith, revoke_credential_again c, revoke_credentials_again rest)
