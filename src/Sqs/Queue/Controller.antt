-- ===== src/Sqs/Queue/Controller.antt =====
-- pkg/controller/sqs/queue/controller.go. A response to `CreateQueue` without the URL, on which `Create`
-- panics, is outside the model of the requests.
pub mod Service
pub mod Converge
use provider_aws.Prelude.{
  String, Bool, true, false, not, Option, none, some, List, [], ◌∷◌, ◌==◌, is_empty, if◌then◌else◌,
}
use provider_aws.StringMap.{StringMap, keys}
use provider_aws.Runtime.{
  Runtime, available, creating, deleting, ExternalObservation, ExternalCreation, no_observation,
  no_creation, Resource, set_condition_of, name_of,
}
use provider_aws.Flow.{
  Go, Managed, ◌>>=◌, ◌>>◌, pure, return, gets, modify, return_if, send, send_or, with_resource,
  error_of,
}
use provider_aws.Aws.Errors.{wrap}
use provider_aws.Aws.Pointers.{string_value}
use provider_aws.Sqs.Queue.{
  Parameters, Observation, Client, map_value, generate_queue_attributes, generate_create_attributes,
  generate_queue_observation, is_not_found, late_initialize_queue, is_up_to_date, tags_diff,
  get_connection_details,
}

abbrev pub err_not_queue : String
err_not_queue = "managed resource is not a Queue custom resource"

abbrev pub err_create_failed : String
err_create_failed = "cannot create Queue"

abbrev pub err_delete_failed : String
err_delete_failed = "cannot delete Queue"

abbrev pub err_get_queue_attributes_failed : String
err_get_queue_attributes_failed = "cannot get Queue attributes"

abbrev pub err_get_queue_url_failed : String
err_get_queue_url_failed = "cannot get Queue URL"

abbrev pub err_list_queue_tags_failed : String
err_list_queue_tags_failed = "cannot list Queue tags"

abbrev pub err_update_failed : String
err_update_failed = "failed to update the Queue resource"

abbrev pub err_tag : String
err_tag = "cannot tag Queue"

module _ ⦃rt : Runtime⦄ where
  abbrev pub Queue : Type 0
  Queue = Resource Parameters Observation

  module _ {W : Type 0} (client : Client rt.Err W) where
    -- The pointer of the response, or the early return where it is nil.
    url_or_missing : Option String → Go Queue W (ExternalObservation × Option rt.Err) String
    url_or_missing none = return (no_observation, wrap none err_get_queue_url_failed)
    url_or_missing (some url) = pure url

    -- The spec is compared with a copy taken after late initialization, from which it never
    -- differs, so that the write to Kubernetes that this comparison guards is never sent.
    unfoldable pub observe :
        (String → String → Bool)
        → Managed Queue
        → W
        → (ExternalObservation × Option rt.Err) × Managed Queue × W
    unfolding url_or_missing
    observe fold =
        with_resource (no_observation, some (rt.new_error err_not_queue))
          do
            name ← gets name_of
            found ←
                send_or
                  (λ e. (
                    no_observation,
                    wrap (rt.ignore is_not_found (some e)) err_get_queue_url_failed,
                  ))
                  (client.get_queue_url name)
            url ← url_or_missing found
            attributes ←
                send_or
                  (λ e. (
                    no_observation,
                    wrap (rt.ignore is_not_found (some e)) err_get_queue_attributes_failed,
                  ))
                  (client.get_queue_attributes url)
            tags ←
                send_or (λ e. (no_observation, wrap (some e) err_list_queue_tags_failed))
                  (client.list_queue_tags url)
            modify (λ cr. record cr { params = late_initialize_queue cr.params attributes tags })
            modify (set_condition_of available)
            modify (λ cr. record cr { at_provider = generate_queue_observation url attributes })
            cr ← gets (λ cr. cr)
            return (
              record {
                resource_exists = true;
                resource_up_to_date = is_up_to_date fold cr.params attributes tags;
                resource_late_initialized = false;
                connection_details = get_connection_details cr.at_provider;
              },
              none,
            )

    unfoldable pub create :
        Managed Queue → W → (ExternalCreation × Option rt.Err) × Managed Queue × W
    create =
        with_resource (no_creation, some (rt.new_error err_not_queue))
          do
            modify (set_condition_of creating)
            name ← gets name_of
            p ← gets (λ cr. cr.params)
            url ←
                send_or (λ e. (no_creation, wrap (some e) err_create_failed))
                  (client.create_queue (record {
                    attributes = generate_create_attributes p;
                    queue_name = name;
                    tags = map_value p.tags;
                  }))
            return (record no_creation { connection_details = (rt.endpoint_key, url) ∷ [] }, none)

    -- `if len(removedTags) > 0`
    pub untag : String → StringMap String → Go Queue W (Option rt.Err) Unit
    untag url [] = pure tt
    untag url (entry ∷ removed) =
        send_or (λ e. wrap (some e) err_update_failed)
          (client.untag_queue url (keys (entry ∷ removed)))

    -- `if len(addedTags) > 0`
    pub tag : String → StringMap String → Go Queue W (Option rt.Err) Unit
    tag url [] = pure tt
    tag url (entry ∷ added) =
        send_or (λ e. wrap (some e) err_tag) (client.tag_queue url (entry ∷ added))

    unfoldable pub update : Managed Queue → W → Option rt.Err × Managed Queue × W
    unfolding untag tag
    update = with_resource (some (rt.new_error err_not_queue)) do
      url ← gets (λ cr. cr.at_provider.url)
      return_if (url == "") none
      p ← gets (λ cr. cr.params)
      send_or (λ e. wrap (some e) err_update_failed)
          (client.set_queue_attributes url (generate_queue_attributes p))
      tags ← send_or (λ e. wrap (some e) err_list_queue_tags_failed) (client.list_queue_tags url)
      untag url (tags_diff tags (map_value p.tags)).removed
      tag url (tags_diff tags (map_value p.tags)).added
      return none

    unfoldable pub remove : Managed Queue → W → Option rt.Err × Managed Queue × W
    remove = with_resource (some (rt.new_error err_not_queue)) do
      modify (set_condition_of deleting)
      url ← gets (λ cr. cr.at_provider.url)
      r ← send (client.delete_queue url)
      return (wrap (rt.ignore is_not_found (error_of r)) err_delete_failed)
