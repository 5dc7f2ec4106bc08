-- ===== src/Services/History.antt =====
-- Histories of the services, one after another.
use kunlun_model_gateway.Models.{Db}
use kunlun_model_gateway.Services.{Step, Reaches}

pub followed_by : {a b c : Db} → Reaches a b → Reaches b c → Reaches a c
followed_by before Reaches.start = before
followed_by before (Reaches.next after step) = Reaches.next (followed_by before after) step

pub one_step : {a b : Db} → Step a b → Reaches a b
one_step step = Reaches.next Reaches.start step
