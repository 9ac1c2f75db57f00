-- ===== src/Config.antt =====
-- `Config` of Include/robot_config/Header/config.h: what the program reads from its files. TinyXML is
-- a parameter, and so is `atoi`, which gives an integer.
pub mod Photo
pub mod Table
pub mod Body
use hzrobot.Prelude.{
  ℤ, pos, negsuc, ℕ, zero, suc, ◌+◌, ◌-◌, ◌%◌, ◌^◌, Bool, true, false, if◌then◌else◌, Option, ◌>>=◌,
  some, none, List, [], ◌∷◌, ◌++◌, Bytes, codes, equal,
}
use hzrobot.Json.{less}
use hzrobot.Json.Models.{
  FieldType, string_field, int_field, vector_field, map_field, model_field, Columns, no_columns,
  column, Value, Row,
}
use mathlib.Core.Option

-- What TinyXML gives for a file that it has loaded, on the nodes of its tree; `none` is a null
-- pointer. The first is `FirstChildElement` of the document.
pub record Document (Node : Type 0) : Type 0 where
  pub root_element : Option Node
  pub first_child : Node → Option Node
  pub first_child_named : Node → Bytes → Option Node
  pub to_element : Node → Option Node
  pub first_child_element : Node → Option Node
  pub next_sibling_element : Node → Option Node
  pub get_text : Node → Option Bytes

pub record MysqlConfig : Type 0 where
  pub ip : Bytes
  pub port : Bytes
  pub user : Bytes
  pub passwd : Bytes
  pub dbname : Bytes

pub record ServerConfig : Type 0 where
  pub server_ip : Bytes
  pub server_port : ℕ
  pub doc_root : Bytes
  pub threads : ℤ
  pub robot_ip : Bytes
  pub robot_port : Bytes
  pub ea_ip : Bytes
  pub ea_port : Bytes
  pub timeout : ℤ
  pub cn_photo : ℤ

-- `ea_photo_L1` and `ea_photo_L2` with their fields.
abbrev pub photo_rows : Columns
photo_rows = column (codes "param") (vector_field (vector_field (map_field int_field))) no_columns

abbrev pub photo_columns : Columns
photo_columns = column (codes "type") int_field (
    column (codes "tablenum") int_field
      (column (codes "param") (map_field (model_field photo_rows)) no_columns))

-- `st_robot_ip`
abbrev pub robot_columns : Columns
robot_columns = column (codes "ip") string_field no_columns

pub record Config : Type 0 where
  pub sql_config : MysqlConfig
  pub ser_config : ServerConfig
  pub photo_config : Row photo_columns
  pub c_robot_ip : Row robot_columns

-- `std::map::operator[]` and the assignment to what it gives.
unfoldable pub put_entry {ℓ} : {A : Type ℓ} → Bytes → A → List (Bytes × A) → List (Bytes × A)
put_entry k v [] = (k, v) ∷ []
put_entry k v ((k', v') ∷ entries) =
    let later = (k', v') ∷ put_entry k v entries in
    if equal k k'
    then (k, v) ∷ entries
    else if less k k'
    then (k, v) ∷ (k', v') ∷ entries
    else later

-- The assignment of an `int` to an `unsigned short int`.
abbrev pub to_unsigned_short : ℤ → ℕ
to_unsigned_short (pos n) = n % 2 ^ 16
to_unsigned_short (negsuc n) = 2 ^ 16 - 1 - n % 2 ^ 16

-- How a load ends: it returns, it uses a null pointer, or the model's fuel is used up.
pub data Loading (A : Type 0) : Type 0 where
  returned : Bool → A → Loading A
  crashed : Loading A
  stuck : Loading A

module _ {Node : Type 0} (files : Bytes → Option (Document Node)) (atoi : Bytes → ℤ) where
  -- `FirstChild(section).FirstChild(name).Element()` of the root, and the text there.
  unfoldable pub text_at : Document Node → (section name : Bytes) → Option Bytes
  text_at doc section name = do
    root ← doc.root_element
    outer ← doc.first_child_named root section
    inner ← doc.first_child_named outer name
    element ← doc.to_element inner
    doc.get_text element

  -- `catch (...)` does not catch the use of a null pointer.
  unfoldable pub finish : Option Config → Loading Config
  finish none = crashed
  finish (some config) = returned true config

  unfoldable pub read_mysql : Document Node → Config → Option Config
  read_mysql doc config = do
    user ← text_at doc (codes "databases") (codes "user")
    password ← text_at doc (codes "databases") (codes "password")
    server_ip ← text_at doc (codes "databases") (codes "server_ip")
    port ← text_at doc (codes "databases") (codes "port")
    dbname ← text_at doc (codes "databases") (codes "dbname")
    some (record config {
      sql_config = record {
        ip = server_ip;
        port = port;
        user = user;
        passwd = password;
        dbname = dbname;
      };
    })

  unfoldable pub loadmysql_config : Config → Loading Config
  loadmysql_config config = elim (files (codes "mysql_config.xml")) [
    | none ↦ returned false config
    | some doc ↦ finish (read_mysql doc config)
  ]

  unfoldable pub read_server : Document Node → Config → Option Config
  read_server doc config = do
    server_ip ← text_at doc (codes "server") (codes "server_ip")
    server_port ← text_at doc (codes "server") (codes "server_port")
    doc_root ← text_at doc (codes "server") (codes "doc_root")
    threads ← text_at doc (codes "server") (codes "threads")
    robot_ip ← text_at doc (codes "server") (codes "robot_ip")
    ea_ip ← text_at doc (codes "server") (codes "ea_ip")
    ea_port ← text_at doc (codes "server") (codes "ea_port")
    robot_port ← text_at doc (codes "server") (codes "robot_port")
    timeout ← text_at doc (codes "server") (codes "timeout")
    take_photo_times ← text_at doc (codes "server") (codes "take_photo_times")
    some (record config {
      ser_config = record {
        server_ip = server_ip;
        server_port = to_unsigned_short (atoi server_port);
        doc_root = doc_root;
        threads = atoi threads;
        robot_ip = robot_ip;
        robot_port = robot_port;
        ea_ip = ea_ip;
        ea_port = ea_port;
        timeout = atoi timeout;
        cn_photo = atoi take_photo_times;
      };
    })

  unfoldable pub loadserver_config : Config → Loading Config
  loadserver_config config = elim (files (codes "server_config.xml")) [
    | none ↦ returned false config
    | some doc ↦ finish (read_server doc config)
  ]
