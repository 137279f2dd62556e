-- ===== src/Tests/Structs.antt =====
-- The theorems of Structs at concrete inputs.
use data_proxy.Base.{◌≡◌, refl, true, false, none, some, ok, codes, [], ◌∷◌, ◌↔◌, ◌⊎◌}
use data_proxy.Structs.Permission.{DbPermissionLevel, grants}
use data_proxy.Structs.Format.{Key}
use data_proxy.Structs.Object.{ObjectType, ResourceVariant, TypedRelation, type_of_variant}
use data_proxy.Structs.States.{
  found, missing, absent, ResourceStates, check_permissions, require_project, tag, tag_of,
}
use data_proxy.Structs.States.Access.{Allowed, check_permissions_iff}
use data_proxy.Structs.Creation.{Hierarchy, into_new_or_existing, existing, object_of}
use data_proxy.Structs.Creation.Parents.{into_new_or_existing_lem, Resolved, nearest, IsTyped}
use data_proxy.Tests.{project_p, writer, fresh_id}

-- The path p/d/o, of which only the project is there.
abbrev new_dataset : ResourceStates
new_dataset = record {
  project = found project_p;
  collection = absent;
  dataset = missing (codes "d") ResourceVariant.dataset;
  object = missing (codes "o") ResourceVariant.object;
}

check_permissions_iff_example :
    (check_permissions new_dataset writer DbPermissionLevel.append false ≡ ok tt) ↔ (
      Allowed writer.permissions DbPermissionLevel.append false new_dataset.object
      ⊎ Allowed writer.permissions DbPermissionLevel.append false new_dataset.dataset
      ⊎ Allowed writer.permissions DbPermissionLevel.append false new_dataset.collection
      ⊎ Allowed writer.permissions DbPermissionLevel.append false new_dataset.project)
check_permissions_iff_example =
    check_permissions_iff new_dataset writer DbPermissionLevel.append false

may_write : check_permissions new_dataset writer DbPermissionLevel.write false ≡ ok tt
unfolding check_permissions
may_write = refl

read_below_write : grants DbPermissionLevel.write DbPermissionLevel.read ≡ true
unfolding grants
read_below_write = refl

project_there : require_project new_dataset ≡ ok project_p
unfolding require_project
project_there = refl

new_dataset-IsTyped : IsTyped new_dataset
unfolding type_of_variant
new_dataset-IsTyped = record { collection = tt; dataset = refl; object = refl }

into_new_or_existing_lem_example :
    (h : Hierarchy) × (into_new_or_existing (fresh_id 2) (fresh_id 3) (fresh_id 4) new_dataset
      ≡ ok h)
    × (h.project ≡ existing project_p)
    × Resolved ObjectType.collection absent (TypedRelation.project 1) h.collection
    × Resolved ObjectType.dataset new_dataset.dataset
        (nearest project_p (object_of h.collection) none)
        h.dataset
    × Resolved ObjectType.object new_dataset.object
        (nearest project_p (object_of h.collection) (object_of h.dataset))
        h.object
    × (h.tags ≡ record {
      project = some (tag project_p);
      collection = tag_of (object_of h.collection);
      dataset = tag_of (object_of h.dataset);
      object = tag_of (object_of h.object);
    })
into_new_or_existing_lem_example =
    into_new_or_existing_lem (fresh_id 2) (fresh_id 3) (fresh_id 4) new_dataset project_p
      project_there new_dataset-IsTyped

abbrev key_bytes : Key
key_bytes = 1 ∷ 2 ∷ 3 ∷ []
