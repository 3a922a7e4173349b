-- ===== src/Lib.antt =====
-- Verification of the native services of the realme X2 Pro device tree.
--
-- The repository holds a device configuration and the native code that goes with it: a fingerprint
-- HAL, a helper service that knows whether a finger is on the sensor, a sub-HAL of the sensors
-- service, a service that measures the light of a part of the screen, and a hook of init. This
-- library models that C++ code, two small Java parts, and three scripts.
--
-- Parts, and how they interact. The fingerprint HAL stands between the framework and the vendor's
-- fingerprint service: it forwards requests one way and callbacks the other, drives two sysfs nodes
-- of the display (the light of the dimlayer, and the press flag), and tells the helper service of
-- touches. The helper service keeps the touch state and the callbacks that want to know it, and a
-- thread of it ends a touch after three seconds. The sensors sub-HAL turns presses, which the display
-- driver reports in a third node, into events of a one-shot wake-up sensor. The other parts
-- stand alone.
--
-- Files, with the code that they model.
--   Base            numbers, lists, machine words and floats that the parts share
--   Fingerprint     fingerprint/BiometricsFingerprint.h and .cpp, fingerprint/UdfpsExtension.cpp
--     Types, Nodes    the fields of BiometricsFingerprint, its private helpers and constructor
--     Requests        setNotify, preEnroll and the other requests of the framework
--     Callbacks       onEnrollResult to onFingerprintCmd
--     Steps           the entry points as steps, and histories of them
--     Display         the abstract panel and the refinement to it
--     Light           what the two nodes hold over a history
--     Forwarding, Delivery   what reaches the vendor's service, the client and the helper
--   Syshelper       syshelper/UdfpsHelper.h and .cpp, syshelper/LinkedCallback.h and .cpp
--     Types, LinkedCallback, UdfpsHelper   the data and the methods
--     Links, Safety   the death links, and the reachable states of the service
--     Registry        the registered callbacks under each method
--     Members, Refinement   the service as its clients see it, which forgets order and repetition
--     Watchdog        run() with its interleavings; Timing, Noticing and Touches are about it
--     Service         the clients' calls and the thread together; Expiry is about them
--     TestClient      syshelper/test/main.cpp
--   System          the fingerprint HAL and the helper service together
--     Whole           the HAL, the helper's thread and its other clients; Expiry and Touch are about
--                     them
--   Sensors         sensors/Sensor.h and .cpp, sensors/SensorsSubHal.h and .cpp
--     Types, Sensor   the data, constructors and methods of the three classes
--     Scan            readFpState with its sscanf; ScanLaws is about it
--     Thread          run() and readEvents()
--     Histories       the methods and the thread in any order
--     Wakeups, OneShot, Presses, Sampling, Shutdown   one sensor over its histories
--     Liveness        presses and the steps of the thread that answer them
--     EarlyStart      a thread that starts before the object is constructed
--     SubHal          SensorsSubHal; Dispatch, Reachable, Lifting, Modes, Periods and Deliveries are
--                     about it
--     EndToEnd        from the framework's activate to the HAL proxy
--   Als             als/default/AreaCapture.h and .cpp
--   Init            init/init_samurai.cpp
--   Services        fingerprint/service.cpp, als/default/main.cpp, syshelper/main.cpp
--   Shims           shims/libbase_shim.cpp, shims/libcrypto_shim.cpp,
--                   touch/include/TouchscreenGestureConfig.h
--   Build           the scripts
--     PatchElf        shims/patch_elf.py; Strings, Split, Swap, PatchLaws and Patching are about it
--     Sha1Sums        update-sha1sums.py, by lines; Hashes and Rehash are about it
--     Reorder         reorder-libs.py: the comparison and the sort; Keys, Plain, Sorting and
--                     Sections are about them
--     ReorderFile     reorder-libs.py: the file that is read and written; Texts, Trim and Rewriting are
--                     about it
--   ChargeSpeed     chargespeed/
--     CoolDown        CoolDownUtils, onPreferenceChange and onReceive
--     Histories       the calls and the kernel in any order; Decimal, Nodes and Restore are about them
--     Fragment        ChargingSpeedFragment, by the preference that it shows
--   Ifaa            ifaamanager/, IFAAManagerImpl
--     Manager         the methods that compute an answer; Ids and Hex are about them
--     Binding         the binding to the IFAA service; Service is about it
-- The modules called Samples, and those whose names end in Examples, hold concrete inputs.
--
-- How code becomes definitions. A class is a record of its fields, and a method a function from the
-- record to its result and the record after it, under the name of the method in this library's
-- spelling (setDimlayerHbm is set_dimlayer_hbm). Calls that leave the program are entries of a
-- trace, or a list of what was posted. Log lines are left out. Threads are cut at the places where
-- another thread may come between; a history is a list of such steps, in any order. Undefined
-- behaviour that the code can reach (a null proxy, a dangling cookie, an empty list of displays) is
-- the value `none` or `undefined`.
--
-- Bounds. The loops of the source are recursions on the list or the number that they count down, and
-- the loops of the threads are lists of steps. Two definitions run on fuel: the loop of patch_elf, with
-- more fuel than the file has bytes, each turn being the end of another string of it; and the decimal
-- digits of an int, with ten. uint32_t and int32_t wrap around where the code computes with them; the
-- int32_t products of the delays and the int64_t clock sums of the sampling branch are the first
-- wrapped and the second exact.
--
-- Parameters. The vendor's service, the clients, the binder driver, the system properties, the
-- kernel's nodes, SurfaceFlinger, float arithmetic, the property area of bionic and the constants of
-- the HIDL packages, the disk and SHA-1 are not part of the repository. They are arguments: functions
-- of the history, answers of each call, or records with the laws that their documents state.
--
-- Assumptions of the models. The fingerprint service has one RPC thread, so its entry points do not
-- interleave, and no callee calls back within a call. Each method of the helper is one step;
-- registerCallback, which lets go of its lock before it calls the new callback, may also be two. The
-- thread of a sensor starts once the object is constructed, although the constructor of the base
-- class starts it; EarlyStart is about the other order. Numbers in the text of the node are read
-- without a bound; the theorems about them assume that they fit an int, since sscanf leaves the
-- conversion of others undefined.
--
-- A condition_variable::wait may end by itself, in the helper's thread as in those of the sensors. The
-- coordinates of a touch are rounded to floats where the code stores them as such.
--
-- The sort of reorder-libs.py is a stable insertion sort; the sort of Python gives the same list where
-- the comparison is a total preorder. Its comparison, strcoll in the locale C, is by character codes.
--
-- Not modelled: the resources and layouts of chargespeed, the constant answers of IFAAManagerImpl
-- (getDeviceModel, getVersion and the JSON text of getExtInfo), interfaces and als/aidl_api (interface
-- definitions), extract-files.sh, setup-makefiles.sh and releasetools.py, which call tools of other
-- repositories, and the configuration files.
pub mod Base
pub mod Fingerprint
pub mod Syshelper
pub mod System
pub mod Sensors
pub mod Als
pub mod Init
pub mod Services
pub mod Shims
pub mod Build
pub mod ChargeSpeed
pub mod Ifaa
