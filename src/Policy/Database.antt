-- ===== src/Policy/Database.antt =====
-- What the policy service uses of GORM over the table policy_metadata: an interface to the
-- third-party library. `none` is a call whose `Error` is not nil.
use opendif_core.Base.{List, Option, String, none, some}
use opendif_core.Policy.Models.{FieldRef, PolicyMetadata}

pub record PolicyDb : Type 1 where
  pub State : Type 0
  -- Where("schema_id = ?").Find, Where("schema_id IN ?").Find, and the query by pairs
  pub rows_of_schema : String → State → Option (List PolicyMetadata)
  pub rows_of_schemas : List String → State → Option (List PolicyMetadata)
  pub rows_of_pairs : List FieldRef → State → Option (List PolicyMetadata)
  -- a transaction: the state that it works on, its writes, and the state that it leaves
  pub begin : State → Option State
  pub delete_ids : List String → State → Option State
  pub create_all : List PolicyMetadata → State → Option State
  pub save_all : List PolicyMetadata → State → Option State
  pub update_allow_list : PolicyMetadata → State → Option State
  pub commit : State → Option State

-- The bind of the calls of a transaction.
infixl 5 ◌>>=◌
abbrev pub ◌>>=◌ : {A B : Type 0} → Option A → (A → Option B) → Option B
none >>= f = none
some a >>= f = f a
