-- ===== src/Tests/Scheduling.antt =====
-- scheduling.service.ts on the example fleet.
use node_vms.Prelude.{◌≡◌, ◌↔◌, arith, []}
use node_vms.Database.Lists.{lists}
use node_vms.Database.Errors.{ok}
use node_vms.Scheduling.{check_vehicle_availability, check_driver_availability, to_result}
use node_vms.Scheduling.Sound.{
  VehicleFree, DriverFree, HasPeriods, NotInMaintenance, vehicle_available_iff,
  driver_available_iff,
}
use node_vms.Tests.Data.{fleet}

pub fleet-HasPeriods : HasPeriods fleet
fleet-HasPeriods = record {
  bookings = (omega arith, tt);
  trips = (tt, (omega arith, tt));
  assignments = (omega arith, tt);
}

vehicle_available_iff_example :
    (check_vehicle_availability lists 1 7 20 60 fleet ≡ (ok (to_result []), fleet))
    ↔ (NotInMaintenance lists 1 fleet × VehicleFree 1 7 20 60 fleet)
vehicle_available_iff_example =
    vehicle_available_iff lists 1 7 20 60 fleet (omega arith) fleet-HasPeriods

driver_available_iff_example :
    (check_driver_availability lists 3 7 70 80 fleet ≡ (ok (to_result []), fleet))
    ↔ DriverFree 3 7 70 80 fleet
driver_available_iff_example =
    driver_available_iff lists 3 7 70 80 fleet (omega arith) fleet-HasPeriods
