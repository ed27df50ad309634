-- ===== src/Machine/Orders.antt =====
-- The calls that the branches of reconcileServer make, and what they leave of the objects.
use cluster_api_provider_clo.Base.{
  String, ◌≡◌, refl, ap, ◌∙◌, ◌⊎◌, inl, inr, true, Option, none, some, List, [], ◌∷◌, if◌then◌else◌,
  is_set,
}
use cluster_api_provider_clo.Api.Conditions.{ConditionStatus}
use cluster_api_provider_clo.Sdk.{
  Server, ServerInterfaceRequest, ServerRequest, Answer, reply, failure, Call, create_call,
  server_request,
}
use cluster_api_provider_clo.Go.{◌>>=◌, gets, or_wrap}
use cluster_api_provider_clo.Go.Frame.{IsFrame, Within, Within-bind, frame_rules}
use cluster_api_provider_clo.Scope.{Env}
use cluster_api_provider_clo.Services.Calls.{
  is_read, HasCalls, Makes, Makes-same, Makes-after, Makes-none, Makes-one,
}
use cluster_api_provider_clo.Machine.Scope.{
  MachineScope, machine_call, set_machine_condition, set_provider_id, emit_machine, secret_value,
  read_secret, get_bootstrap_data,
}
use cluster_api_provider_clo.Machine.Update.{update_machine_from_server}
use cluster_api_provider_clo.Machine.Server.{
  put_server_id, server_request_of, use_server, after_server_create, send_server_request,
  create_server, adopt_server, after_server_get, server_known,
}

instance abbrev pub machine_calls : {W : Type 0} → HasCalls (MachineScope W)
machine_calls = record { calls_of = λ s. s.calls }

-- What the request of a server takes from the objects: the machine's name, the zone of the cluster
-- and the ID of the server group.
abbrev pub Origin : Type 0
Origin = String × String × String

abbrev pub origin : {W : Type 0} → MachineScope W → Origin
origin s = (
  s.cloudscale_machine.name, s.cloudscale_cluster.spec.zone,
  s.cloudscale_machine.status.server_group_id,
)

-- A call that creates a server for the machine.
pub record CreatesFor (o : Origin) (c : Call) : Type 0 where
  pub req : ServerRequest
  pub is_create : c ≡ create_call (server_request req)
  pub name : req.name ≡ o.0
  pub zone : req.zone ≡ o.1
  pub groups : req.server_groups ≡ (if is_set o.2 then o.2 ∷ [] else [])

module _ {W : Type 0} (env : Env W) (Q : Type 0) (o : Origin) where
  -- A call that only reads, or that creates the machine's server where `Q` holds.
  abbrev pub Allowed : Call → Type 0
  Allowed c = (is_read c ≡ true) ⊎ (Q × CreatesFor o c)

  -- From a state of the origin, the origin stays and the calls made are allowed.
  pub record Orders (s t : MachineScope W) : Type 0 where
    pub at : origin s ≡ o → (origin t ≡ o) × Makes Allowed s t

  pub frame : IsFrame Orders
  frame = record {
    same = λ s. record { at = λ e. (e, Makes-same Allowed s) };
    after = λ s t u p q. record {
      at = λ e.
          let first = p.at e in
          let later = q.at first.0 in (later.0, Makes-after Allowed s t u first.1 later.1);
    };
  }

  pub Orders-quiet : (s t : MachineScope W) → origin t ≡ origin s → t.calls ≡ s.calls → Orders s t
  Orders-quiet s t e h = record { at = λ f. (e ∙ f, Makes-none Allowed s t h) }

  pub Within-read :
      {A : Type 0} (c : Call) (f : W → A × W) → is_read c ≡ true → Within Orders (machine_call c f)
  Within-read c f h = record {
    at = λ s. record { at = λ e. (e, Makes-one Allowed s _ c refl (inl h)) };
  }

  pub Orders-condition :
      (type : String) (status : ConditionStatus) (reason message : String) (s : MachineScope W)
      → Orders s (set_machine_condition env type status reason message s)
  unfolding set_machine_condition
  Orders-condition type status reason message s = Orders-quiet s _ refl refl

  Orders-put_id : (id : String) (s : MachineScope W) → Orders s (put_server_id id s)
  Orders-put_id id s = Orders-quiet s _ refl refl

  Orders-emit : (reason note : String) (s : MachineScope W) → Orders s (emit_machine reason note s)
  Orders-emit reason note s = Orders-quiet s _ refl refl

  Within-gets : {A : Type 0} (f : MachineScope W → A) → Within Orders (gets f)
  Within-gets f = record { at = λ s. frame.same s }

  Within-secret_value : (v : Option String) → Within Orders (secret_value env v)
  unfolding secret_value
  Within-secret_value none = search (frame_rules, frame)
  Within-secret_value (some value) = search (frame_rules, frame)

  Within-read_secret :
      (namespace : String) (name : Option String) → Within Orders (read_secret env namespace name)
  unfolding read_secret
  Within-read_secret namespace none = search (frame_rules, frame)
  Within-read_secret namespace (some name) =
      search (frame_rules, frame, Within-read, Within-secret_value)

  Within-get_bootstrap_data : Within Orders (get_bootstrap_data env)
  unfolding get_bootstrap_data
  Within-get_bootstrap_data = search (frame_rules, frame, Within-gets, Within-read_secret)

  Within-use : (server : Server) → Within Orders (use_server server)
  unfolding use_server update_machine_from_server set_provider_id ◌>>=◌
  Within-use server = record { at = λ s. Orders-quiet s _ refl refl }

  Within-after_create : (answer : Answer Server) → Within Orders (after_server_create env answer)
  unfolding after_server_create
  Within-after_create (failure e) = search (frame_rules, frame)
  Within-after_create (reply server) =
      search (frame_rules, frame, Orders-put_id, Orders-emit, Within-gets, Within-use)

  -- The request that is sent is built for the origin.
  abbrev Built : ServerRequest → Type 0
  Built req =
      (req.name ≡ o.0)
      × (req.zone ≡ o.1)
      × (req.server_groups ≡ (if is_set o.2 then o.2 ∷ [] else []))

  Within-send : (req : ServerRequest) → Q → Built req → Within Orders (send_server_request env req)
  unfolding send_server_request
  Within-send req q b =
      Within-bind frame
        (machine_call (create_call (server_request req)) (env.client.create_server req))
        (after_server_create env)
        (record {
          at = λ s. record {
            at = λ e. (
              e,
              Makes-one Allowed s _ (create_call (server_request req)) refl (
                  inr (
                    q,
                    record { req = req; is_create = refl; name = b.0; zone = b.1; groups = b.2 },
                  )),
            );
          };
        })
        Within-after_create

  Within-order :
      (bootstrap_data : String) (interfaces : List ServerInterfaceRequest)
      (ip_family : Option String)
      → Q
      → Within Orders (
          gets (λ s. server_request_of s bootstrap_data interfaces ip_family)
          >>= send_server_request env)
  unfolding server_request_of ◌>>=◌
  Within-order bootstrap_data interfaces ip_family q = record {
    at = λ s. record {
      at = λ e.
          ((Within-send (server_request_of s bootstrap_data interfaces ip_family) q (
            ap (λ (x : Origin). x.0) e,
            ap (λ (x : Origin). x.1) e,
            ap (λ (x : Origin). if is_set x.2 then x.2 ∷ [] else []) e,
          )).at
              s).at
            e;
    };
  }

  Within-create : Q → Within Orders (create_server env)
  unfolding create_server
  Within-create q =
      search (frame_rules, frame, Within-gets, Within-get_bootstrap_data, Within-order)

  Within-adopt :
      (servers : List Server) → (servers ≡ [] → Q) → Within Orders (adopt_server env servers)
  unfolding adopt_server
  Within-adopt [] q = Within-create (q refl)
  Within-adopt (server ∷ []) q = search (frame_rules, frame, Orders-put_id, Within-use)
  Within-adopt (a ∷ b ∷ rest) q = search (frame_rules, frame)

  pub Within-listed :
      (answer : Answer (List Server))
      → (answer ≡ reply [] → Q)
      → Within Orders (or_wrap "listing servers" answer >>= adopt_server env)
  unfolding ◌>>=◌
  Within-listed (failure e) q = record { at = λ s. frame.same s }
  Within-listed (reply servers) q = record { at = (Within-adopt servers (λ e. q (ap reply e))).at }

  Within-after_get :
      (id : String) (answer : Answer Server) → Within Orders (after_server_get env id answer)
  unfolding after_server_get
  Within-after_get id (reply server) = Within-use server
  Within-after_get id (failure e) = search (frame_rules, frame, Orders-condition)

  pub Within-known : (id : String) → Within Orders (server_known env id)
  unfolding server_known
  Within-known id = search (frame_rules, frame, Within-read, Within-after_get)
