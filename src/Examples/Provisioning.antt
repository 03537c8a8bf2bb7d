-- ===== src/Examples/Provisioning.antt =====
-- The theorems on the order of a reconcile and on the creation of a Workflow, in the small world.
use cluster_api_provider_tin.Machine.Workflow.{create_workflow}
use cluster_api_provider_tin.Machine.Workflow.Creation.{Creation}
use cluster_api_provider_tin.Machine.Workflow.Created.{create_workflow-Creation}
use cluster_api_provider_tin.Examples.World.{world, scope, server_a, start}

create_workflow-Creation_example :
    Creation world scope server_a start (create_workflow world scope server_a start)
create_workflow-Creation_example = create_workflow-Creation world scope server_a start
