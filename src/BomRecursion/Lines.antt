-- ===== src/BomRecursion/Lines.antt =====
-- mrp_check_bom_recursion: a write on lines keeps the database without cycles.
use odoo_addons.Base.{ℕ, Option, List, map}
use odoo_addons.BomRecursion.{Bom, moved_lines, write_lines_of}

module _ (db : List Bom) (recs : List (ℕ × ℕ)) (product bom : Option ℕ) where
  abbrev written : Bom → Bom
  written = write_lines_of recs product bom (moved_lines recs product db)

  abbrev after : List Bom
  after = map written db
