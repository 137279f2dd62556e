-- ===== src/Auth/Requests/Granted.antt =====
-- auth/auth.rs: what a granted request says of its path, its user and the rules.
use mathlib.Core.Bool.{false≢true}
use data_proxy.Base.{
  Bool, true, false, List, ◌∷◌, ◌++◌, Option, none, some, Text, slash, Result, ok, err, guard,
  ok_or, >>=-eq-ok, guard-eq-ok, ok_or-eq-ok, ◌≡◌, refl, sym, ◌∙◌, ap, ◌⊎◌, inl, inr, if◌then◌else◌,
  Bool-cases,
}
use data_proxy.Structs.Permission.{Method, is_method_read, level_of_method}
use data_proxy.Structs.Object.{Object, is_public}
use data_proxy.Structs.States.{
  ResourceStates, check_permissions, disallow_missing, states_fail_partial_sync, require_project,
  require_object, get_object, found,
}
use data_proxy.Structs.States.Access.{Allowed, check_permissions_iff}
use data_proxy.Structs.Users.{ObjectsState, regular, UserState, anonymous, CheckAccessResult}
use data_proxy.Auth.Path.{key_into_prefix}
use data_proxy.Auth.Resolve.{prefix_into_resource_states}
use data_proxy.Auth.Resolve.Sound.{
  IsResolved, require_project-found, prefix_into_resource_states-IsResolved,
}
use data_proxy.Auth.Requests.{Env, Caller, obey_rules, object_user, handle_object}

-- The caller may make the request: its key holds the level that the method asks for, on one of the
-- four levels of the path, or the method reads and one of them is public; without a key the object
-- itself is found and public.
abbrev pub MayAccess : Method → ResourceStates → Option Caller → Type 0
MayAccess method states (some (key, attributes)) =
    Allowed key.permissions (level_of_method method) (is_method_read method) states.object
    ⊎ Allowed key.permissions (level_of_method method) (is_method_read method) states.dataset
    ⊎ Allowed key.permissions (level_of_method method) (is_method_read method) states.collection
    ⊎ Allowed key.permissions (level_of_method method) (is_method_read method) states.project
MayAccess method states none =
    (o : Object) × (require_object states ≡ ok o) × (is_public o.data_class ≡ true)

module _ (env : Env) where
  open env use {
    Headers, Credentials, RuleInput, self_id, ulid_to_string, get_full_resource_by_path,
    get_location, extract_access_key_perms, project_get_headers, build, evaluate_object,
  }

  obey_rules-ok :
      (method : Method) (headers : Headers) (states : ResourceStates) (caller : Option Caller)
      → obey_rules env method headers states caller ≡ ok tt
      → (input : RuleInput) × (build method headers states caller ≡ some input)
        × (evaluate_object input ≡ some true)
  unfolding obey_rules
  obey_rules-ok method headers states caller h =
      let (input, built, rest) = >>=-eq-ok (ok_or (build method headers states caller) _) _ h in
      let (result, evaluated, passed) = >>=-eq-ok (ok_or (evaluate_object input) _) _ rest in
      (
        input,
        ok_or-eq-ok (build method headers states caller) _ built,
        ok_or-eq-ok (evaluate_object input) _ evaluated ∙ ap some (guard-eq-ok result _ passed),
      )

  object_user-ok :
      (method : Method) (states : ResourceStates) (caller : Option Caller) {u : UserState}
      → object_user env method states caller ≡ ok u
      → MayAccess method states caller
  unfolding object_user
  object_user-ok method states (some (key, attributes)) h =
      let (_, checked, _) =
        >>=-eq-ok (check_permissions states key (level_of_method method) (is_method_read method)) _
          h in
      (check_permissions_iff states key (level_of_method method) (is_method_read method)).0 checked
  object_user-ok method states none h =
      let (o, required, rest) = >>=-eq-ok (require_object states) _ h in
      let (_, public, _) = >>=-eq-ok (guard (is_public o.data_class) _) _ rest in
      (o, required, guard-eq-ok (is_public o.data_class) _ public)

  -- What a granted request on an object of a bucket rests on, in terms of the states of its path.
  pub record IsGranted (bucket_name key_name : Text) (method : Method) (creds : Option Credentials)
      (headers : Headers) (result : CheckAccessResult) (states : ResourceStates) : Type 0 where
    pub state :
        result.objects_state
        ≡ regular states (elim (get_object states) [ none ↦ none | some o ↦ get_location o.id ])
    pub path :
        (prefix : List (Text × Text)) × (key_into_prefix (bucket_name ++ slash ∷ key_name)
          ≡ ok prefix)
        × (prefix_into_resource_states get_full_resource_by_path prefix false ≡ ok states)
    pub resolved : IsResolved get_full_resource_by_path false states
    pub complete : (is_method_read method ≡ false) ⊎ (disallow_missing states ≡ ok tt)
    pub synced : states_fail_partial_sync states self_id ≡ ok tt
    pub caller : MayAccess method states (extract_access_key_perms creds)
    pub rules :
        (input : RuleInput) × (build method headers states (extract_access_key_perms creds)
          ≡ some input)
        × (evaluate_object input ≡ some true)

  read_check :
      (method : Method) (states : ResourceStates)
      → (if is_method_read method then disallow_missing states else ok tt) ≡ ok tt
      → (is_method_read method ≡ false) ⊎ (disallow_missing states ≡ ok tt)
  read_check method states h = elim (Bool-cases (is_method_read method)) [
    | inl e ↦ inr (rw e at h)
    | inr e ↦ inl e
  ]

  -- A request on an object of a bucket is granted only if the names of its path resolve to states
  -- of the four levels, which are returned with the location of the object found; a reading method
  -- finds every name; the lowest object found is not partially synced here; the caller's key holds
  -- the method's level on some level of the path or a reading method meets a public object there,
  -- or without a key the object itself is found and public; and the rule engine answers true.
  pub handle_object-IsGranted :
      (bucket_name key_name : Text) (method : Method) (creds : Option Credentials)
      (headers : Headers) {result : CheckAccessResult}
      → handle_object env bucket_name key_name method creds headers ≡ ok result
      → (states : ResourceStates) × IsGranted bucket_name key_name method creds headers result
          states
  unfolding handle_object
  handle_object-IsGranted bucket_name key_name method creds headers {result} h =
      let caller = extract_access_key_perms creds in
      let (prefix, named, h₁) = >>=-eq-ok (key_into_prefix (bucket_name ++ slash ∷ key_name)) _ h in
      let (states, resolved, h₂) =
        >>=-eq-ok (prefix_into_resource_states get_full_resource_by_path prefix false) _ h₁ in
      let (_, complete, h₃) =
        >>=-eq-ok (if is_method_read method then disallow_missing states else ok tt) _ h₂ in
      let (_, synced, h₄) = >>=-eq-ok (states_fail_partial_sync states self_id) _ h₃ in
      let (project, _, h₅) = >>=-eq-ok (require_project states) _ h₄ in
      let (user, allowed, h₆) = >>=-eq-ok (object_user env method states caller) _ h₅ in
      let (_, obeyed, same) = >>=-eq-ok (obey_rules env method headers states caller) _ h₆ in
      (
        states,
        record {
          state =
              ap {B = ObjectsState}
                (λ (r : Result CheckAccessResult). elim r [
                  | ok x ↦ x.objects_state
                  | err _ ↦ regular states none
                ])
                (sym same);
          path = (prefix, named, resolved);
          resolved =
              prefix_into_resource_states-IsResolved get_full_resource_by_path prefix false
                resolved;
          complete = read_check method states complete;
          synced = synced;
          caller = object_user-ok method states caller allowed;
          rules = obey_rules-ok method headers states caller obeyed;
        },
      )

  either_way :
      (b : Bool) (states : ResourceStates)
      → disallow_missing states ≡ ok tt
      → (if b then disallow_missing states else ok tt) ≡ ok tt
  either_way true states h = h
  either_way false states h = refl

  -- Without a key, a request on a public object of a complete and synced path that the rules let
  -- through is granted to the anonymous user, whatever its method is, also a writing or a deleting
  -- one.
  pub handle_object-anonymous :
      (bucket_name key_name : Text) (method : Method) (creds : Option Credentials)
      (headers : Headers) (prefix : List (Text × Text)) (states : ResourceStates) (o : Object)
      (input : RuleInput)
      → key_into_prefix (bucket_name ++ slash ∷ key_name) ≡ ok prefix
      → prefix_into_resource_states get_full_resource_by_path prefix false ≡ ok states
      → disallow_missing states ≡ ok tt
      → states_fail_partial_sync states self_id ≡ ok tt
      → extract_access_key_perms creds ≡ none
      → require_object states ≡ ok o
      → is_public o.data_class ≡ true
      → build method headers states none ≡ some input
      → evaluate_object input ≡ some true
      → (result : CheckAccessResult) × (handle_object env bucket_name key_name method creds headers
          ≡ ok result)
        × (result.user_state ≡ anonymous)
  unfolding handle_object
  handle_object-anonymous bucket_name key_name method creds headers prefix states o input named
        resolved complete synced no_key object public built obeyed =
      let project =
        project_found
          (prefix_into_resource_states-IsResolved get_full_resource_by_path prefix false
            resolved).has_project in
      (
        record {
          objects_state =
              regular states
                (elim (get_object states) [ none ↦ none | some o ↦ get_location o.id ]);
          user_state = anonymous;
          headers = project_get_headers project.0 method headers;
        },
        rw named (
            rw resolved (
              rw (either_way (is_method_read method) states complete) (
                rw synced (
                  rw (require_project-found states project.0 project.1)
                    (rw no_key (rw object (rw public (rw built (rw obeyed))))))))),
        refl,
      )
    where
      project_found :
          (false ≡ true) ⊎ ((p : Object) × (states.project ≡ found p))
          → (p : Object) × (states.project ≡ found p)
      project_found (inl e) = absurd (false≢true e)
      project_found (inr p) = p
