-- ===== src/Iam/Policy/Versions.antt =====
-- The versions of a policy: what `deleteOldestVersion` of
-- pkg/controller/identity/iampolicy/controller.go chooses, and what IAM does to the list.
pub mod Laws
pub mod Removal
use provider_aws.Prelude.{
  ℕ, zero, suc, String, ◌≡◌, ◌≤◌, ◌+◌, ◌⊎◌, Bool, true, false, Option, none, some, List, [], ◌∷◌,
  ◌==◌, ltb, length, contains, if◌then◌else◌,
}
use provider_aws.Iam.Policy.{PolicyVersion}

-- The body of the loop of `deleteOldestVersion`; `oldestVersion.CreateDate` is nil until a version
-- has been chosen.
older : Option PolicyVersion → PolicyVersion → Option PolicyVersion
older none v = some v
older (some o) v = if ltb v.create_date o.create_date then some v else some o

unfoldable pub oldest_from : Option PolicyVersion → List PolicyVersion → Option PolicyVersion
unfolding older
oldest_from o [] = o
oldest_from o (v ∷ vs) = oldest_from (if v.is_default_version then o else older o v) vs

unfoldable pub oldest_version : List PolicyVersion → Option PolicyVersion
oldest_version vs = oldest_from none vs

abbrev pub version_ids : List PolicyVersion → List String
version_ids [] = []
version_ids (v ∷ vs) = v.version_id ∷ version_ids vs

-- IAM deletes the version with an id.
unfoldable pub without : String → List PolicyVersion → List PolicyVersion
without id [] = []
without id (v ∷ vs) = let rest = without id vs in if v.version_id == id then rest else v ∷ rest

-- IAM makes another version the default.
unfoldable pub no_default : List PolicyVersion → List PolicyVersion
no_default [] = []
no_default (v ∷ vs) = record v { is_default_version = false } ∷ no_default vs

unfoldable pub default_of : List PolicyVersion → Option PolicyVersion
default_of [] = none
default_of (v ∷ vs) = if v.is_default_version then some v else default_of vs

-- The version with an id, where there is one.
unfoldable pub find_version : String → List PolicyVersion → Option PolicyVersion
find_version id [] = none
find_version id (v ∷ vs) = if v.version_id == id then some v else find_version id vs

unfoldable pub default_count : List PolicyVersion → ℕ
default_count [] = 0
default_count (v ∷ vs) = (if v.is_default_version then 1 else 0) + default_count vs

unfoldable pub HasDistinctIds : List PolicyVersion → Type 0
HasDistinctIds [] = Unit
HasDistinctIds (v ∷ vs) = (contains (version_ids vs) v.version_id ≡ false) × HasDistinctIds vs

-- What IAM keeps true of a policy: at most five versions, one of which is the default.
pub record IsValid (vs : List PolicyVersion) : Type 0 where
  pub bounded : length vs ≤ 5
  pub one_default : default_count vs ≡ 1
  pub distinct : HasDistinctIds vs

-- No version with this id is the default.
unfoldable pub IsOther : String → List PolicyVersion → Type 0
IsOther id [] = Unit
IsOther id (v ∷ vs) = (v.version_id ≡ id → v.is_default_version ≡ false) × IsOther id vs

-- No version that is not the default is older than `o`.
unfoldable pub IsOldest : PolicyVersion → List PolicyVersion → Type 0
IsOldest o [] = Unit
IsOldest o (v ∷ vs) = (v.is_default_version ≡ false → o.create_date ≤ v.create_date) × IsOldest o vs

-- `v` is in the list and is not the default.
unfoldable pub IsMember : PolicyVersion → List PolicyVersion → Type 0
IsMember o [] = ⊥
IsMember o (v ∷ vs) = ((v ≡ o) × (v.is_default_version ≡ false)) ⊎ IsMember o vs
