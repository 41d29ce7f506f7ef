-- ===== src/Elb/Patch.antt =====
-- pkg/clients/elasticloadbalancing/elb/elb.go: the patch between the load balancer and the spec.
use Prim.Native.String
use Prim.Native.Nat.{Ordering}
use provider_aws.Prelude.{
  String, ◌≡◌, ◌≢◌, refl, inl, inr, Bool, true, false, not, ◌&&◌, none, some, List, [], ◌∷◌,
  if◌then◌else◌, is_empty, is_some, arith,
}
use provider_aws.Flow.{Result, ok, err}
use provider_aws.Flow.Laws.{Result-cases}
use provider_aws.Aws.Pointers.{string_value}
use provider_aws.Elb.{
  Tag, Listener, HealthCheck, Parameters, Description, SdkTag, late_initialize_elb,
}

-- Go's `<` of texts.
abbrev pub before : String → String → Bool
before a b = elim (String.compare a b) [ Ordering.lt ↦ true | _ ↦ false ]

insert_string : String → List String → List String
insert_string s [] = s ∷ []
insert_string s (t ∷ ts) =
    let rest = insert_string s ts in if before t s then t ∷ rest else s ∷ t ∷ ts

-- `sort.Strings`
unfoldable pub sort_strings : List String → List String
unfolding insert_string
sort_strings [] = []
sort_strings (s ∷ ss) = insert_string s (sort_strings ss)

insert_tag : Tag → List Tag → List Tag
insert_tag s [] = s ∷ []
insert_tag s (t ∷ ts) =
    let rest = insert_tag s ts in if before t.key s.key then t ∷ rest else s ∷ t ∷ ts

-- `sort.Slice` of tags by their keys, which are different from one another.
unfoldable pub sort_tags : List Tag → List Tag
unfolding insert_tag
sort_tags [] = []
sort_tags (s ∷ ss) = insert_tag s (sort_tags ss)

-- `sortParametersArrays`
unfoldable pub sort_parameters_arrays : Parameters → Parameters
sort_parameters_arrays p = record p {
  availability_zones = sort_strings p.availability_zones;
  security_group_ids = sort_strings p.security_group_ids;
  subnet_ids = sort_strings p.subnet_ids;
  tags = sort_tags p.tags;
}

-- `&ELBParameters{}`
abbrev pub no_parameters : Parameters
no_parameters = record {
  region = "";
  availability_zones = [];
  health_check = none;
  listeners = [];
  scheme = none;
  security_group_ids = [];
  security_group_id_selector = none;
  subnet_ids = [];
  subnet_id_selector = none;
  tags = [];
}

-- What the code calls of other packages: `strings.ToUpper`, and `jsonpatch.CreateMergePatch` between
-- the JSON of two structures with `json.Unmarshal` of the patch. A merge patch holds a member of the
-- target that the source does not have as it is in the target.
pub record PatchLibrary (E : Type 0) : Type 0 where
  pub to_upper : String → String
  pub merge_patch : Parameters → Parameters → Result E Parameters
  pub merge_patch-health_check :
      (current target patch : Parameters)
      → merge_patch current target ≡ ok patch
      → current.health_check ≡ none
      → patch.health_check ≡ target.health_check

module _ {E : Type 0} (lib : PatchLibrary E) where
  upper_listeners : List Listener → List Listener
  upper_listeners [] = []
  upper_listeners (l ∷ ls) =
      record l {
        protocol = lib.to_upper l.protocol;
        instance_protocol = some (lib.to_upper (string_value l.instance_protocol));
      }
      ∷ upper_listeners ls

  unfoldable pub create_patch : Description → Parameters → List SdkTag → Result E Parameters
  unfolding upper_listeners
  create_patch v target elb_tags =
      let current = sort_parameters_arrays (late_initialize_elb no_parameters v elb_tags) in
      let sorted = sort_parameters_arrays target in
      lib.merge_patch current (record sorted { listeners = upper_listeners sorted.listeners })

  -- `cmp.Equal(&ELBParameters{}, patch)`, the region apart. The options name lists of references and of
  -- selectors, while the selectors of a spec are pointers, so that they are compared.
  unfoldable pub is_empty_patch : Parameters → Bool
  is_empty_patch p =
      is_empty p.availability_zones
      && not (is_some p.health_check)
      && is_empty p.listeners
      && not (is_some p.scheme)
      && is_empty p.security_group_ids
      && not (is_some p.security_group_id_selector)
      && is_empty p.subnet_ids
      && not (is_some p.subnet_id_selector)
      && is_empty p.tags

  up_to_date_of : Result E Parameters → Result E Bool
  up_to_date_of (ok patch) = ok (is_empty_patch patch)
  up_to_date_of (err e) = err e

  unfoldable pub is_up_to_date : Parameters → Description → List SdkTag → Result E Bool
  unfolding up_to_date_of
  is_up_to_date p v elb_tags = up_to_date_of (create_patch v p elb_tags)

  -- A spec with a health check is never up to date, whatever the load balancer has: late
  -- initialization, which makes the description comparable with the spec, leaves the health check out.
  pub is_up_to_date-health_check :
      (p : Parameters) (v : Description) (elb_tags : List SdkTag) (check : HealthCheck)
      → p.health_check ≡ some check
      → is_up_to_date p v elb_tags ≢ ok true
  unfolding is_up_to_date create_patch is_empty_patch sort_parameters_arrays late_initialize_elb
  is_up_to_date-health_check p v elb_tags check some_check up_to_date =
      let current = sort_parameters_arrays (late_initialize_elb no_parameters v elb_tags) in
      let sorted = sort_parameters_arrays p in
      let target = record sorted { listeners = upper_listeners sorted.listeners } in
      elim (Result-cases (lib.merge_patch current target)) [
        | inr (e, q) ↦ absurd (ground arith)
        | inl (patch, q) ↦
            let kept = lib.merge_patch-health_check current target patch q refl in
            absurd (ground (arith, kept, some_check))
      ]
