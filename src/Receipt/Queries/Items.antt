-- ===== src/Receipt/Queries/Items.antt =====
-- baskety/gen/sqlc/receipt_scan_items.sql.go.
use baskety.Base.{
  ℕ, String, false, ◌&&◌, Option, none, some, List, [], ◌∷◌, ◌++◌, leb, if◌then◌else◌,
}
use baskety.Base.Int.{ℤ}
use baskety.Schema.{ScanItemRow, Db}
use baskety.Outside.{ParsedLineItem}
use baskety.Table.{find_by, any_row, select, update_where, order_by}
use baskety.World.{ok, err, db_error, Moment, Stmt}
use baskety.Sql.{inserted, updated, one, nullable, fits, coalesce, currency_fits, stored_currency}
use baskety.Integrity.{has_item}
use baskety.Receipt.Queries.Rows.{scan_is, scan_item_is, scan_item_of, scan_item_status}

unfoldable pub create_receipt_scan_item : ℕ → ParsedLineItem → Stmt ScanItemRow
create_receipt_scan_item scan_id it m d =
    let row : ScanItemRow = record {
      id = m.fresh;
      receipt_scan_id = scan_id;
      raw_text = it.raw_text;
      parsed_name = it.parsed_name;
      parsed_brand = it.parsed_brand;
      parsed_quantity = it.parsed_quantity;
      parsed_unit = it.parsed_unit;
      parsed_price_minor = it.parsed_price_minor;
      parsed_total_price_minor = it.parsed_total_price_minor;
      parsed_currency = stored_currency it.parsed_currency;
      parsed_store_name = it.parsed_store_name;
      confidence_score = it.confidence_score;
      status = "pending";
      inventory_item_id = none;
      corrected_name = none;
      corrected_brand = none;
      corrected_quantity = none;
      corrected_price_minor = none;
      corrected_total_price_minor = none;
      corrected_currency = none;
      corrected_store_name = none;
      corrected_unit = none;
      created_at = m.now;
      updated_at = m.now;
    } in
    inserted (nullable fits it.parsed_quantity && currency_fits it.parsed_currency)
      (any_row (scan_item_is m.fresh) d.scan_items) (any_row (scan_is scan_id) d.scans) row d
      (record d { scan_items = d.scan_items ++ row ∷ [] })

unfoldable pub list_receipt_scan_items : ℕ → Stmt (List ScanItemRow)
list_receipt_scan_items scan_id m d = (
  ok (order_by (λ a b. leb a.created_at b.created_at) (select (scan_item_of scan_id) d.scan_items)),
  d,
)

-- What the user says of a line: `UpdateScanItemRequest` less the link to the inventory.
pub record Correction : Type 0 where
  pub status : String
  pub corrected_name : Option String
  pub corrected_brand : Option String
  pub corrected_quantity : Option ℤ
  pub corrected_price_minor : Option ℤ
  pub corrected_total_price_minor : Option ℤ
  pub corrected_currency : Option String
  pub corrected_store_name : Option String
  pub corrected_unit : Option String

abbrev pub corrected : Moment → Correction → ScanItemRow → ScanItemRow
corrected m c r = record r {
  status = c.status;
  corrected_name = c.corrected_name;
  corrected_brand = c.corrected_brand;
  corrected_quantity = c.corrected_quantity;
  corrected_price_minor = c.corrected_price_minor;
  corrected_total_price_minor = c.corrected_total_price_minor;
  corrected_currency = stored_currency c.corrected_currency;
  corrected_store_name = c.corrected_store_name;
  corrected_unit = c.corrected_unit;
  updated_at = m.now;
}

unfoldable pub update_receipt_scan_item_status : ℕ → Correction → Stmt ScanItemRow
update_receipt_scan_item_status id c m d =
    updated (find_by (scan_item_is id) d.scan_items)
      (scan_item_status c.status
        && nullable fits c.corrected_quantity
        && currency_fits c.corrected_currency)
      (λ row. false) (corrected m c) d
      (record d { scan_items = update_where (scan_item_is id) (corrected m c) d.scan_items })

-- An UPDATE that meets no row checks no foreign key.
unfoldable pub link_receipt_scan_item_to_inventory : ℕ → ℕ → Option String → Stmt (Unit {0})
link_receipt_scan_item_to_inventory id inventory_item_id unit m d =
    let linked : Db = record d {
      scan_items =
          update_where (scan_item_is id)
            (λ r. record r {
              inventory_item_id = some inventory_item_id;
              corrected_unit = coalesce unit r.corrected_unit;
            })
            d.scan_items;
    } in
    if any_row (scan_item_is id) d.scan_items
    then if has_item d inventory_item_id then (ok tt, linked) else (err db_error, d)
    else (ok tt, d)

-- `getScanItem`, the statement that repository_pg.go of baskety/internal/receipt writes out.
unfoldable pub get_scan_item : ℕ → Stmt ScanItemRow
get_scan_item id m d = (one (find_by (scan_item_is id) d.scan_items), d)
