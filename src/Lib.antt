-- ===== src/Lib.antt =====
-- cluster-api-provider-cloudscale: a Cluster API infrastructure provider for cloudscale.ch.
--
-- The program is a set of Kubernetes controllers and admission webhooks. A controller reads an object
-- (a CloudscaleCluster or a CloudscaleMachine), calls the cloudscale.ch API until the resources of the
-- object exist or are gone, and writes what it found to the status of the object. The webhooks set
-- defaults and refuse specs that the controllers could not serve.
--
-- How the program is modelled.
--   * Base: the names of the libraries and Boolean tests that the other modules share.
--   * Errors: Go's error values (wrapped and joined) and the classifiers of
--     internal/cloudscale/client.go.
--   * Api: the objects of api/v1beta2 as records; a pointer that may be nil is an Option.
--   * Sdk: the resources and requests of the cloudscale.ch SDK, and the services, which are
--     parameters: a service is any function from a world to an answer and the next world, so an
--     answer may be any value or error, and may differ from call to call.
--   * Go: Go's control flow over a state: a function returns a value, an error or panics, and what it
--     wrote before stays written. A deferred function runs in each case.
--   * Scope: the state of a reconcile of a cluster, as internal/scope/cluster.go has it, with the API
--     calls and the events so far.
--   * Services: ensureResource and the tags (internal/controller/cloudscale_services.go and
--     cloudscale_tags.go), and relations between the states before and after an action.
--   * Network, Router, LoadBalancer, FloatingIp, ServerGroup: the functions of
--     internal/controller/cloudscalecluster_{network,router,loadbalancer,floatingip,servergroup}.go,
--     under their names in snake case, each loop as a recursion on its list.
--   * Cluster: internal/controller/cloudscalecluster_controller.go, which puts the parts together.
--   * Machine: internal/controller/cloudscalemachine_{controller,server,servergroup}.go and
--     internal/scope/machine.go, in the same manner.
--   * Webhook: internal/webhook/v1beta2/cloudscalecluster_webhook.go, cloudscalemachine_webhook.go and
--     cloudscalemachine_validation.go, with the lookups of internal/cloudscale/{regions,flavors}.go:
--     defaulting, and validation as lists of field errors. The package net/netip is a parameter.
--   * Examples: packages that answer in fixed ways, and each theorem at concrete inputs.
-- A function is cut into several definitions where it branches on what a call answered: the name of
-- each tells the branch. A number that a CRD marker bounds from below is a natural number. No
-- recursion takes fuel but the printing of a number in a message, which has one step for each digit
-- and one more than the number's value at hand.
--
-- Not modelled: contexts and their timeouts (a timeout is one of the errors a call may answer), log
-- output, the encoding of requests, the caches of controller-runtime, fetching an object and patching
-- it, credentials, the templates of machines and clusters with their webhooks and the capacity of a
-- flavor, the registration of controllers and webhooks, cmd, and the generated code.
pub mod Base
pub mod Errors
pub mod Api
pub mod Sdk
pub mod Webhook
pub mod Go
pub mod Scope
pub mod Services
pub mod Machine
pub mod Network
pub mod Router
pub mod FloatingIp
pub mod ServerGroup
pub mod LoadBalancer
pub mod Cluster
pub mod Examples
