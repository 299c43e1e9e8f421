-- ===== src/Witness/Config.antt =====
-- The file of two datanodes.
use dsproj.Common.{pos, [], ◌∷◌, refl, arith, List}
use dsproj.Text.{codes, comma}
use dsproj.Registry.{Datanode}
use dsproj.Registry.Lines.{IsLine}
use dsproj.Dispatch.Request.{all_differ-Lacks}
use dsproj.Witness.Route.{a_node}

abbrev another_node : Datanode
another_node = record { node = codes "n2"; ip = codes "10.0.0.2"; alive = pos 0 }

abbrev two : List Datanode
two = a_node ∷ another_node ∷ []

pub a_node-IsLine : IsLine a_node
a_node-IsLine = record {
  node_field = record {
    no_comma = all_differ-Lacks comma a_node.node refl;
    no_nul = all_differ-Lacks 0 a_node.node refl;
    not_empty = λ e. cc;
  };
  ip_field = record {
    no_comma = all_differ-Lacks comma a_node.ip refl;
    no_nul = all_differ-Lacks 0 a_node.ip refl;
    not_empty = λ e. cc;
  };
  node_line = all_differ-Lacks 10 a_node.node refl;
  ip_line = all_differ-Lacks 10 a_node.ip refl;
  node_fits = omega arith;
  ip_fits = omega arith;
  alive_short = omega arith;
}
