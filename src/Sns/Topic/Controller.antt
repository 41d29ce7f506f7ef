-- ===== src/Sns/Topic/Controller.antt =====
-- pkg/controller/notification/snstopic/controller.go
pub mod Service
pub mod Converge
pub mod LostErrors
use provider_aws.Prelude.{
  String, ◌≡◌, Bool, true, false, not, Option, none, some, List, [], ◌∷◌, ◌==◌, if◌then◌else◌,
}
use provider_aws.StringMap.{StringMap}
use provider_aws.Runtime.{
  Runtime, available, deleting, ExternalObservation, ExternalCreation, no_observation, no_creation,
  name_assigned, Resource, set_condition_of, name_of,
}
use provider_aws.Flow.{
  Go, Managed, ◌>>=◌, ◌>>◌, pure, return, gets, modify, return_if, send, send_or, with_resource,
  error_of,
}
use provider_aws.Aws.Errors.{wrap}
use provider_aws.Aws.Pointers.{string_value}
use provider_aws.Sns.Topic.{
  Parameters, Observation, TopicClient, generate_topic_observation, generate_create_topic_input,
  late_initialize_topic_attr, get_changed_attributes, is_up_to_date, is_topic_not_found,
  parameters_eq,
}

abbrev pub err_unexpected_object : String
err_unexpected_object = "the managed resource is not a SNSTopic resource"

abbrev pub err_get_topic_attr : String
err_get_topic_attr = "failed to get SNS Topic Attribute"

abbrev pub err_create : String
err_create = "failed to create the SNS Topic"

abbrev pub err_delete : String
err_delete = "failed to delete the SNS Topic"

abbrev pub err_update : String
err_update = "failed to update the SNS Topic"

module _ ⦃rt : Runtime⦄ where
  abbrev pub SnsTopic : Type 0
  SnsTopic = Resource Parameters Observation

  module _ {W : Type 0} (client : TopicClient rt.Err W) where
    unfoldable pub observe :
        Managed SnsTopic → W → (ExternalObservation × Option rt.Err) × Managed SnsTopic × W
    observe =
        with_resource (no_observation, some (rt.new_error err_unexpected_object))
          do
            name ← gets name_of
            return_if (name == "") (no_observation, none)
            attrs ←
                send_or
                  (λ e. (
                    no_observation,
                    wrap (rt.ignore (is_topic_not_found client.not_found_code) (some e))
                        err_get_topic_attr,
                  ))
                  (client.get_topic_attributes name)
            current ← gets (λ cr. cr.params)
            modify (λ cr. record cr { params = late_initialize_topic_attr cr.params attrs })
            modify (set_condition_of available)
            modify (λ cr. record cr { at_provider = generate_topic_observation attrs })
            params ← gets (λ cr. cr.params)
            return (
              record {
                resource_exists = true;
                resource_up_to_date = is_up_to_date params attrs;
                resource_late_initialized = not (parameters_eq current params);
                connection_details = [];
              },
              none,
            )

    unfoldable pub create :
        Managed SnsTopic → W → (ExternalCreation × Option rt.Err) × Managed SnsTopic × W
    create =
        with_resource (no_creation, some (rt.new_error err_unexpected_object))
          do
            params ← gets (λ cr. cr.params)
            arn ←
                send_or (λ e. (no_creation, wrap (some e) err_create))
                  (client.create_topic (generate_create_topic_input params))
            modify (λ cr. record cr { meta = rt.set_external_name (string_value arn) cr.meta })
            return (name_assigned, none)

    -- The loop of `Update`: each request overwrites the variable `err`, and none ends the loop.
    pub set_attributes :
        String → StringMap String → Option rt.Err → Go SnsTopic W (Option rt.Err) (Option rt.Err)
    set_attributes arn [] last = pure last
    set_attributes arn ((k, v) ∷ attrs) last = do
      r ← send (
          client.set_topic_attributes
            (record { attribute_name = k; attribute_value = v; topic_arn = arn }))
      set_attributes arn attrs (error_of r)

    -- `range` is the order in which this run visits the entries of the map.
    unfoldable pub update :
        (StringMap String → StringMap String)
        → Managed SnsTopic
        → W
        → Option rt.Err × Managed SnsTopic × W
    unfolding set_attributes
    update range = with_resource (some (rt.new_error err_unexpected_object)) do
      arn ← gets name_of
      attrs ← send_or (λ e. wrap (some e) err_get_topic_attr) (client.get_topic_attributes arn)
      params ← gets (λ cr. cr.params)
      last ← set_attributes arn (range (get_changed_attributes params attrs)) none
      return (wrap last err_update)

    unfoldable pub remove : Managed SnsTopic → W → Option rt.Err × Managed SnsTopic × W
    remove = with_resource (some (rt.new_error err_unexpected_object)) do
      modify (set_condition_of deleting)
      name ← gets name_of
      r ← send (client.delete_topic name)
      return (wrap (rt.ignore (is_topic_not_found client.not_found_code) (error_of r)) err_delete)
