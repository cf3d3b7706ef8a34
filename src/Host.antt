-- ===== src/Host.antt =====
-- What the program asks of Node's fs and path modules. The file system is read only here.
use ctxlite.Prelude.{ℕ, Bool, Option, Text}

pub record Host : Type 0 where
  -- `statSync(path).size`; `none` is an exception
  pub size_of : Text → Option ℕ
  -- `existsSync(path)` and then `readFileSync(path, "utf8")`
  pub content_of : Text → Option Text
  pub join : Text → Text → Text
  pub resolve : Text → Text → Text
  pub is_absolute : Text → Bool
