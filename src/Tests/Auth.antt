-- ===== src/Tests/Auth.antt =====
-- The theorems of Auth at concrete inputs.
use data_proxy.Base.{
  ℕ, ◌≤◌, ◌<◌, ◌≡◌, refl, true, false, none, some, ok, List, [], ◌∷◌, ◌++◌, Text, codes, slash,
  split_once, length, map, get_elem?, join,
}
use data_proxy.Structs.Permission.{Method, is_method_read, level_of_method}
use data_proxy.Structs.Object.{is_public}
use data_proxy.Structs.States.{
  ResourceStates, found, missing, absent, disallow_missing, states_fail_partial_sync,
  require_object, require_project, check_permissions, set_missing, validate, get_project,
  get_object,
}
use data_proxy.Structs.Object.{ResourceVariant}
use data_proxy.Structs.Creation.{Hierarchy, into_new_or_existing}
use data_proxy.Structs.Users.{CheckAccessResult, user_state_of, regular, token}
use data_proxy.Auth.Path.{key_into_prefix, key_into_prefix_lem, with_path}
use data_proxy.Auth.Resolve.{prefix_into_resource_states, enter_all, enter}
use data_proxy.Auth.Resolve.Sound.{
  IsResolved, prefix_into_resource_states-IsResolved, resolved_path_creates,
}
use data_proxy.Auth.Requests.{handle_object}
use data_proxy.Auth.Requests.Granted.{IsGranted, handle_object-IsGranted}
use data_proxy.Tests.{project_p, object_o, writer, fresh_id, cached, proxy}

key_into_prefix_lem_example :
    (parts : List (Text × Text)) × (key_into_prefix (codes "p/c/d/a/b") ≡ ok parts)
    × (0 < length parts)
    × (length parts ≤ 4)
    × (join slash (map (λ (e : Text × Text). e.1) parts) ≡ codes "p/c/d/a/b")
    × ((i : ℕ) → get_elem? parts i ≡ with_path [] (map (λ (e : Text × Text). e.1) parts) i)
key_into_prefix_lem_example = key_into_prefix_lem (codes "p/c/d/a/b")

-- The states of the paths p/o and p/n: the object is there, or is missing.
abbrev whole_path : ResourceStates
whole_path = record {
  project = found project_p;
  collection = absent;
  dataset = absent;
  object = found object_o;
}

abbrev path_to_create : ResourceStates
path_to_create = record whole_path { object = missing (codes "n") ResourceVariant.object }

abbrev names : Text → List (Text × Text)
names name = (codes "p", codes "p") ∷ (codes "p/" ++ name, name) ∷ []

resolves_whole : prefix_into_resource_states cached (names (codes "o")) false ≡ ok whole_path
unfolding prefix_into_resource_states enter_all enter get_project validate
resolves_whole = refl

resolves_to_create :
    prefix_into_resource_states cached (names (codes "n")) false ≡ ok path_to_create
unfolding prefix_into_resource_states enter_all enter get_project validate set_missing
resolves_to_create = refl

prefix_into_resource_states-IsResolved_example : IsResolved cached false path_to_create
prefix_into_resource_states-IsResolved_example =
    prefix_into_resource_states-IsResolved cached (names (codes "n")) false resolves_to_create

resolved_path_creates_example :
    (h : Hierarchy) × (into_new_or_existing (fresh_id 2) (fresh_id 3) (fresh_id 8) path_to_create
      ≡ ok h)
resolved_path_creates_example =
    resolved_path_creates cached (names (codes "n")) path_to_create (fresh_id 2) (fresh_id 3)
      (fresh_id 8) resolves_to_create

abbrev pub granted : CheckAccessResult
granted = record {
  objects_state = regular path_to_create none;
  user_state = token (codes "key") 77;
  headers = none;
}

pub put_granted :
    handle_object (proxy (some (writer, []))) (codes "p") (codes "n") Method.put none tt
    ≡ ok granted
unfolding handle_object prefix_into_resource_states enter_all enter get_project get_object validate
    set_missing key_into_prefix split_once states_fail_partial_sync require_project
    check_permissions user_state_of is_method_read level_of_method
put_granted = refl

handle_object-IsGranted_example :
    (states : ResourceStates) × IsGranted
      (proxy (some (writer, [])))
      (codes "p")
      (codes "n")
      Method.put
      none
      tt
      granted
      states
handle_object-IsGranted_example =
    handle_object-IsGranted (proxy (some (writer, []))) (codes "p") (codes "n") Method.put none tt
      put_granted

names_of_path : key_into_prefix (codes "p" ++ slash ∷ codes "o") ≡ ok (names (codes "o"))
unfolding key_into_prefix split_once
names_of_path = refl

nothing_missing : disallow_missing whole_path ≡ ok tt
unfolding disallow_missing
nothing_missing = refl

is_synced : states_fail_partial_sync whole_path 5 ≡ ok tt
unfolding states_fail_partial_sync
is_synced = refl

has_object : require_object whole_path ≡ ok object_o
unfolding require_object
has_object = refl

object_public : is_public object_o.data_class ≡ true
unfolding is_public
object_public = refl
