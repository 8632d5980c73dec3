-- ===== src/Scheduler/Known.antt =====
-- The caches of vault data: a read that succeeded once is not made again.
use dca_protocol.Base.{some, String, ◌≡◌, inl, inr, arith, Option-cases}
use dca_protocol.Base.Text.{to_lower}
use dca_protocol.Base.Dict.{lookup, lookup-insert_self}
use dca_protocol.Scheduler.Epoch.{VaultMeta}
use dca_protocol.Scheduler.Types.{State}
use dca_protocol.Scheduler.Rpc.{ok, Rpc}
use dca_protocol.Scheduler.Monad.{
  ◌>>=◌, pure, continue, gets, await, await_or, modify, match_option,
}
use dca_protocol.Scheduler.Caches.{vault_meta, fetch_vault}

module _ {W : Type 0} (rpc : Rpc W) where
  vault_meta-known :
      (v : String) (m : VaultMeta) (s : State) (w : W)
      → lookup (to_lower v) s.vaults ≡ some m
      → vault_meta rpc v s w ≡ (ok m, s, w)
  unfolding vault_meta ◌>>=◌ gets match_option pure continue
  vault_meta-known v m s w e = ground arith

  fetch_vault-known :
      (v : String) (m : VaultMeta) (s : State) (w : W)
      → (fetch_vault rpc v s w).0 ≡ ok m
      → lookup (to_lower v) (fetch_vault rpc v s w).1.vaults ≡ some m
  unfolding fetch_vault ◌>>=◌ await await_or pure continue modify
  fetch_vault-known v m s w e = ground (arith, lookup-insert_self (to_lower v) m s.vaults)

  vault_meta-stored :
      (v : String) (m : VaultMeta) (s : State) (w : W)
      → (vault_meta rpc v s w).0 ≡ ok m
      → lookup (to_lower v) (vault_meta rpc v s w).1.vaults ≡ some m
  unfolding vault_meta ◌>>=◌ gets match_option pure continue
  vault_meta-stored v m s w e = elim (Option-cases (lookup (to_lower v) s.vaults)) [
    | inl new ↦ ground (arith, fetch_vault-known v m s w)
    | inr (m', known) ↦ ground arith
  ]

  -- Once a vault's data was read, reading it again gives the same from the cache: whatever the world
  -- is by then, no call is made of it and no field changes.
  pub vault_meta-again :
      (v : String) (m : VaultMeta) (s : State) (w later : W)
      → (vault_meta rpc v s w).0 ≡ ok m
      → vault_meta rpc v (vault_meta rpc v s w).1 later ≡ (ok m, (vault_meta rpc v s w).1, later)
  vault_meta-again v m s w later e =
      vault_meta-known v m (vault_meta rpc v s w).1 later (vault_meta-stored v m s w e)
