-- ===== src/Programs/Postgres.antt =====
-- internal/db/postgres.go: the opening of the database, over the calls of gorm and database/sql.
use kitchen_ops.Base.{ℕ, ◌*◌, Option, none, some, ◌++◌, Bytes, codes}
use kitchen_ops.Runtime.{Result, ok, err, driver, second}
use kitchen_ops.Application.Orders.{then_ok}

-- gorm.Open, db.DB and Ping, on handles of two types.
pub record Gorm (D S : Type 0) : Type 0 where
  pub open_dsn : Bytes → Result D
  pub sql_db : D → Result S
  pub ping : S → Option Bytes

pub record Pool : Type 0 where
  pub max_idle_conns : ℕ
  pub max_open_conns : ℕ
  pub conn_max_lifetime : ℕ

pub record Connection (D : Type 0) : Type 0 where
  pub db : D
  pub pool : Pool

abbrev pub pinged : {D : Type 0} → Option Bytes → Connection D → Result (Connection D)
pinged none c = ok c
pinged (some e) c = err (driver (codes "postgres ping failed: " ++ e))

unfoldable pub open_postgres : {D S : Type 0} → Gorm D S → Bytes → Result (Connection D)
open_postgres gorm dsn = then_ok (gorm.open_dsn dsn) λ db. then_ok (gorm.sql_db db) λ sql.
    pinged (gorm.ping sql) (record {
      db = db;
      pool = record {
        max_idle_conns = 10;
        max_open_conns = 50;
        conn_max_lifetime = 30 * (60 * second);
      };
    })
