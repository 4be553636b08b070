-- ===== src/Controllers/Bindings/Handlers.antt =====
-- The handlers of services/control-plane/src/modules/bindings/bindings.controller.ts.
use absolo_cloud_services.Base.{String, Option, or_default, List}
use absolo_cloud_services.Runtime.Env.{Env}
use absolo_cloud_services.Runtime.State.{State}
use absolo_cloud_services.Schema.Bindings.{Binding}
use absolo_cloud_services.Bindings.Binding.{
  BindOptions, Resource, bind_resource, list_bindings, unbind_resource,
}
use absolo_cloud_services.Bindings.EnvVars.{EnvVars, get_injected_env_vars}
use absolo_cloud_services.Controllers.Pipes.{Reply, handled}

-- The body is not validated, so it may hold an `appId` too.
pub record BindBody : Type 0 where
  pub resource_type : String
  pub resource_id : String
  pub env_prefix : Option String
  pub app_id : Option String

-- `{ appId, ...body }`: the body's keys win.
abbrev pub bind_options : String → BindBody → BindOptions
bind_options app_id body = record {
  app_id = or_default body.app_id app_id;
  resource_type = body.resource_type;
  resource_id = body.resource_id;
  env_prefix = body.env_prefix;
}

module _ ⦃env : Env⦄ where
  unfoldable pub handle_bind_resource : String → BindBody → State → Reply Binding × State
  unfolding bind_resource
  handle_bind_resource app_id body = handled (bind_resource (bind_options app_id body))

  unfoldable pub handle_list_bindings : String → State → Reply (List (Binding × Resource)) × State
  unfolding list_bindings
  handle_list_bindings app_id = handled (list_bindings app_id)

  abbrev pub handle_unbind_resource : String → State → Reply (Unit {0}) × State
  handle_unbind_resource binding_id = handled (unbind_resource binding_id)

  unfoldable pub handle_get_injected_env_vars : String → State → Reply EnvVars × State
  unfolding get_injected_env_vars
  handle_get_injected_env_vars app_id = handled (get_injected_env_vars app_id)
