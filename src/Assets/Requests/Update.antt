-- ===== src/Assets/Requests/Update.antt =====
-- `UpdateAsset` of internal/httpapi/assets.go.
use my_finance.Common.{
  ℕ, Bool, false, not, ◌||◌, Option, none, some, map, if◌then◌else◌, find, is_some, is_empty,
}
use my_finance.Text.{Text, trim_space}
use my_finance.Money.{Amount}
use my_finance.Errors.{
  ok, err, Reply, failure, not_found, check_violation, code_empty_update, code_validation_failed,
}
use my_finance.Tx.{Tx, pure, reads, or_fail, ◌>>=◌, ◌>>◌, commit_or_rollback}
use my_finance.Ledger.State.{Account, Ledger}
use my_finance.Ledger.Schema.{account_is}
use my_finance.Ledger.Handlers.{on_request, then_read}
use my_finance.Ledger.Handlers.Changes.{or_old}
use my_finance.Assets.{
  Asset, Holdings, on_ledger, asset_is, asset_ok, nullable_trimmed, text_refused,
}
use my_finance.Assets.Views.{AssetView, get_asset}

-- `api.UpdateAssetRequest`
pub record UpdateAsset : Type 0 where
  pub name : Option Text
  pub country : Option Text
  pub region : Option Text
  pub institution : Option Text
  pub notes : Option Text
  pub archived : Option Bool

abbrev blank : Option Text → Bool
blank none = false
blank (some t) = is_empty (trim_space t)

-- `validateAssetUpdate`: whether a field is refused.
unfoldable pub update_refused : UpdateAsset → Bool
update_refused p =
    text_refused 100 p.name
    || blank p.name
    || text_refused 80 p.country
    || text_refused 100 p.region
    || text_refused 150 p.institution
    || text_refused 1000 p.notes

abbrev set_if_some : Option Text → Option Text → Option Text
set_if_some none old = old
set_if_some (some t) old = some t

-- The row after the UPDATE.
abbrev pub changed_asset : UpdateAsset → Asset → Asset
changed_asset p a = record a {
  name = or_old a.name (nullable_trimmed p.name);
  country = set_if_some (nullable_trimmed p.country) a.country;
  region = set_if_some (nullable_trimmed p.region) a.region;
  institution = set_if_some (nullable_trimmed p.institution) a.institution;
  notes = set_if_some (nullable_trimmed p.notes) a.notes;
  archived = or_old a.archived p.archived;
}

abbrev change_if : ℕ → ℕ → UpdateAsset → Asset → Asset
change_if id user p a = if asset_is id user a then changed_asset p a else a

-- `UPDATE assets`, with its CHECK constraints.
unfoldable pub update_asset_row : ℕ → ℕ → UpdateAsset → Asset → Tx Holdings (Unit {0})
update_asset_row id user p a h =
    if not (asset_ok (changed_asset p a))
    then err check_violation
    else ok (tt, record h { assets = map (change_if id user p) h.assets })

abbrev set_archived : ℕ → ℕ → Bool → Account → Account
set_archived id user archived a =
    if account_is id user a then record a { archived = archived } else a

-- `UPDATE ledger_accounts SET archived_at`, where the request has `Archived`.
unfoldable pub archive_account : ℕ → ℕ → Option Bool → Tx Ledger (Unit {0})
archive_account id user none s = ok (tt, s)
archive_account id user (some archived) s =
    ok (tt, record s { accounts = map (set_archived id user archived) s.accounts })

-- The transaction of `UpdateAsset`.
unfoldable pub update_asset_tx : ℕ → ℕ → UpdateAsset → Tx Holdings ℕ
update_asset_tx user id p = do
  a ← reads (λ (h : Holdings). or_fail (find (asset_is id user) h.assets) not_found)
  update_asset_row id user p a
  on_ledger (archive_account a.account user p.archived)
  pure id

abbrev pub is_update : UpdateAsset → Bool
is_update p =
    is_some p.name
    || is_some p.country
    || is_some p.region
    || is_some p.institution
    || is_some p.notes
    || is_some p.archived

-- `UpdateAsset`
unfoldable pub update_asset :
    (Amount → Text) → Option ℕ → Option UpdateAsset → ℕ → Holdings → Reply AssetView × Holdings
update_asset shown session body id = on_request session body λ user p h.
    if not (is_update p)
    then (failure 400 code_empty_update, h)
    else if update_refused p
    then (failure 400 code_validation_failed, h)
    else then_read (get_asset shown user) (commit_or_rollback 200 (update_asset_tx user id p) h)
