-- ===== src/Tests/Nodes.antt =====
-- A list of two nodes.
use imonitor.Base.{ℕ, ◌≡◌, refl, none, some, List, [], ◌∷◌, pos, arith}
use imonitor.Sys.{Utmpx, user_process, boot_time}
use imonitor.NodeList.{Memory, head_slot, set, delete_node, returned, insert_list, print_list}
use imonitor.NodeList.Chain.{Item, cell, Chain, NoNode, NoEntry, Freed, Returned}
use imonitor.NodeList.Delete.{delete_node-kept}
use imonitor.NodeList.Ends.{lines, print_list-lines, insert_list-front}
use imonitor.Tests.Logs.{login}

abbrev other_login : Utmpx
other_login = record (login user_process) { ut_pid = pos 5 }

abbrev two_nodes : Memory
two_nodes = record {
  head = 1;
  nodes = set (set (λ _. none) 1 (some (cell 11 2))) 2 (some (cell 12 0));
  entries = set (set (λ _. none) 11 (some (login user_process))) 12 (some other_login);
}

abbrev two_items : List Item
two_items =
    (record { node = 1; ut = 11; entry = login user_process })
    ∷ (record { node = 2; ut = 12; entry = other_login })
    ∷ []

two_items-Chain : Chain two_nodes 1 two_items
two_items-Chain =
    (refl, (omega arith, (2, (refl, (refl, (refl, (omega arith, (0, (refl, (refl, refl))))))))))

delete_node-kept_example :
    Returned
      (λ _ m'.
        Chain m' m'.head ((record { node = 2; ut = 12; entry = other_login }) ∷ [])
        × (Freed (pos 417) two_items m'
            × (((a : ℕ) → NoNode a two_items → m'.nodes a ≡ two_nodes.nodes a)
                × ((u : ℕ) → NoEntry u two_items → m'.entries u ≡ two_nodes.entries u))))
      (delete_node 3 head_slot (pos 417) two_nodes)
delete_node-kept_example =
    delete_node-kept (pos 417) two_nodes two_items two_items-Chain
      ((omega arith, tt), ((omega arith, tt), (tt, (tt, tt))))

print_list-lines_example : print_list 2 1 two_nodes ≡ returned (lines two_items) two_nodes
print_list-lines_example =
    print_list-lines two_nodes 2 1 (record { node = 1; ut = 11; entry = login user_process })
      ((record { node = 2; ut = 12; entry = other_login }) ∷ []) two_items-Chain
      (omega arith, (omega arith, tt)) (omega arith)

-- The memory with one more entry, at 13.
abbrev roomy : Memory
roomy = record two_nodes { entries = set two_nodes.entries 13 (some other_login) }

insert_list-front_example :
    Returned
      (λ _ m'. Chain m' m'.head (
        (record {
          node = 3;
          ut = 13;
          entry = record other_login { ut_type = boot_time; ut_pid = pos 417 };
        })
        ∷ two_items))
      (insert_list 3 13 (login boot_time) roomy)
insert_list-front_example =
    insert_list-front roomy 2 13 (login boot_time) other_login two_items
      (refl, (omega arith, (2, (refl, (refl, (refl, (omega arith, (0, (refl, (refl, refl))))))))))
      refl (omega arith, (omega arith, tt)) (omega arith, (omega arith, tt))
