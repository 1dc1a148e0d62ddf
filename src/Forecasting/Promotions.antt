-- ===== src/Forecasting/Promotions.antt =====
-- What is promoted in packages/forecasting/registry.py is in production.
use compute_weaver.Base.{◌≡◌, true, Name}
use compute_weaver.Forecasting.{ModelVersion, is_live, archive, replace}

module _ (name version : Name) (promoted : ModelVersion) (live : is_live name promoted ≡ true) where
  abbrev moved : ModelVersion → ModelVersion
  moved x = replace name version promoted (archive name x)
