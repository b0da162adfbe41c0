-- ===== src/Tests/Resources.antt =====
-- Resource lists and the resource manager on three nodes, and a queue of numbers.
use arl_hierarchical_multisc.Base.{◌≡◌, refl, []}
use arl_hierarchical_multisc.Base.Int.{pos}
use arl_hierarchical_multisc.Base.Effect.{ok}
use arl_hierarchical_multisc.ResourceList
use arl_hierarchical_multisc.ResourceList.{ResourceList, cpu, gpu}
use arl_hierarchical_multisc.ResourceManager
use arl_hierarchical_multisc.ResourceManager.Accounts.{IsKeyed, check_in_restores}
use arl_hierarchical_multisc.Tests.{nodes, first_node, two_nodes, cluster}

cluster-IsKeyed : IsKeyed (cluster nodes)
cluster-IsKeyed = record { at_cpu = refl; at_gpu = tt }

manager_lent_two :
    ResourceManager.check_out (cluster nodes) cpu (pos 2) ≡ ok (cluster first_node, two_nodes)
unfolding ResourceManager.check_out ResourceList.check_out
manager_lent_two = refl

check_in_restores_example :
    ResourceManager.check_in (cluster first_node) two_nodes
    ≡ ok (cluster nodes, record two_nodes { resources = [] })
check_in_restores_example =
    check_in_restores (cluster nodes) cpu (pos 2) (cluster first_node) two_nodes cluster-IsKeyed
      manager_lent_two
