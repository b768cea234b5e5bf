-- ===== src/Tests/Entry.antt =====
-- What an order is made from and changed to.
use godel_design.Prelude.{some, none, ◌≡◌, ◌↔◌, refl}
use godel_design.Database.{impresion}
use godel_design.JsText.{codes}
use godel_design.Validators.Form.{str, number, other, success}
use godel_design.Pedidos.OrderValidation.{
  UpdatePedidoInput, UpdatePedidoData, validate_pedido_total_amount, update_data,
  validate_pedido_update_input,
}
use godel_design.Pedidos.OrderValidation.Updates.{IsAllowed, validate_pedido_update_input_iff}
use godel_design.Pedidos.OrderValidation.Creation.{
  CreatePedidoInput, PedidoResolvedService, PrintData, CreatePedidoData, validate_pedido_input,
  build_print_description,
}
use godel_design.Pedidos.OrderValidation.Creation.Sound.{IsOrder, validate_pedido_input-IsOrder}

abbrev a_change : UpdatePedidoInput
a_change = record {
  service_id = str (codes "3f2504e0-4f89-41d3-9a0c-0305e82c3301");
  title = str (codes "  Logo   nuevo ");
  description = str (codes "Un logo");
  total_amount = number (codes "150");
  priority = str (codes "normal");
  estimated_delivery_date = other;
}

abbrev changed : UpdatePedidoData
changed = record {
  service_id = codes "3f2504e0-4f89-41d3-9a0c-0305e82c3301";
  title = codes "Logo nuevo";
  description = codes "Un logo";
  total_amount = 15000;
  priority = codes "normal";
  estimated_delivery_date = none;
}

validate_pedido_update_input_iff_example :
    (validate_pedido_update_input a_change ≡ success changed) ↔ (
      (changed ≡ update_data a_change)
      × IsAllowed (update_data a_change) (validate_pedido_total_amount (number (codes "150"))))
validate_pedido_update_input_iff_example = validate_pedido_update_input_iff a_change changed

abbrev prints : CreatePedidoInput
prints = record {
  cliente_id = other;
  title = other;
  description = other;
  total_amount = str (codes "12.50");
  priority = str (codes "urgente");
  estimated_delivery_date = other;
  print_copies = str (codes "120");
  print_color_mode = str (codes "color");
  print_paper_size = str (codes "a4");
  print_sides = str (codes "una_cara");
  print_notes = other;
}

abbrev printing : PedidoResolvedService
printing = record { id = codes "s1"; name = codes "Copias"; workflow_type = impresion }

abbrev copies : PrintData
copies = record {
  copies = 120;
  color_mode = codes "color";
  paper_size = codes "a4";
  sides = codes "una_cara";
  notes = none;
}

abbrev print_order : CreatePedidoData
print_order = record {
  service_id = codes "s1";
  workflow_type = impresion;
  cliente_id = none;
  title = codes "Pedido de impresión";
  description = build_print_description (codes "Copias") copies;
  total_amount = 1250;
  priority = codes "urgente";
  estimated_delivery_date = none;
  print_data = some copies;
}

print_accepted : validate_pedido_input prints printing (codes "2026-08-11") ≡ success print_order
unfolding validate_pedido_input
print_accepted = refl

validate_pedido_input-IsOrder_example :
    IsOrder print_order printing
      (codes "2026-08-11")
      (validate_pedido_total_amount (str (codes "12.50")))
validate_pedido_input-IsOrder_example =
    validate_pedido_input-IsOrder prints printing (codes "2026-08-11") print_order print_accepted
